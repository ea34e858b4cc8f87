-- ===== src/Postgres/Users/Lists/Filter.antt =====
-- internal/repository/postgres/user.go, the filter of ListWithAccess: for a text without wildcards the
-- pattern is a search for the text.
use Prim.Native.Char.{Char, code}
use Prim.Native.String.{[] as empty, ◌∷◌ as cons_char, ◌++◌ as append}
use Prim.Native.String.append as append_laws
use waitinglist.Prelude.{
  ◌≡◌, refl, sym, ap, Bool-cases, inl, inr, ◌∙◌, ℕ, String, Bool, true, false, not, ◌&&◌, ◌||◌,
  List, [], ◌∷◌, ◌++◌, ◌==◌, arith,
}
use waitinglist.Prelude.Text.{str_eq, str_eq_sound}
use waitinglist.Postgres.Server.{Server, Token, lit, ilike, token, tokens}
use waitinglist.Postgres.Users.Lists.{matches_email}

-- a text without `%`, `_` and backslash
unfoldable pub is_plain : String → Bool
is_plain empty = true
is_plain (cons_char c s) =
    not (code c == b'%') && not (code c == b'_') && not (code c == b'\\') && is_plain s

abbrev lits : String → List Token
lits empty = []
lits (cons_char c s) = lit (code c) ∷ lits s

module _ (lower : ℕ → ℕ) where
  -- the text begins with the other, but for the case
  unfoldable pub begins : String → String → Bool
  begins empty s = true
  begins (cons_char p ps) empty = false
  begins (cons_char p ps) (cons_char c s) = lower (code p) == lower (code c) && begins ps s

  -- the other stands somewhere in the text, but for the case
  unfoldable pub contains : String → String → Bool
  unfolding begins
  contains p empty = begins p empty
  contains p (cons_char c s) = begins p (cons_char c s) || contains p s

  tail_matches : (s : String) → ilike lower (Token.any_text ∷ []) s ≡ true
  unfolding ilike
  tail_matches empty = refl
  tail_matches (cons_char c s) = tail_matches s

  begins-ilike : (p s : String) → ilike lower (lits p ++ Token.any_text ∷ []) s ≡ begins p s
  unfolding ilike begins
  begins-ilike empty s = tail_matches s
  begins-ilike (cons_char p ps) empty = refl
  begins-ilike (cons_char p ps) (cons_char c s) = rw (begins-ilike ps s) refl

  contains-ilike :
      (p s : String) → ilike lower (Token.any_text ∷ lits p ++ Token.any_text ∷ []) s ≡ contains p s
  unfolding ilike contains
  contains-ilike p empty = begins-ilike p empty
  contains-ilike p (cons_char c s) = rw (begins-ilike p (cons_char c s), contains-ilike p s) refl

contains-empty : (lower : ℕ → ℕ) (s : String) → contains lower "" s ≡ true
unfolding contains begins
contains-empty lower empty = refl
contains-empty lower (cons_char c s) = refl

tokens-cons :
    (c : Char) (s : String)
    → (code c == b'\\') ≡ false
    → tokens (cons_char c (append s "%")) ≡ token (code c) ∷ tokens (append s "%")
unfolding tokens
tokens-cons c empty h = rw (h, tokens) refl
tokens-cons c (cons_char d s) h = rw (append_laws.cons d s "%") (rw (h, tokens) refl)

token-plain : (k : ℕ) → (k == b'%') ≡ false → (k == b'_') ≡ false → token k ≡ lit k
token-plain k h g = rw (h, g) refl

record IsPlain (c : Char) (s : String) : Type 0 where
  percent : (code c == b'%') ≡ false
  underscore : (code c == b'_') ≡ false
  backslash : (code c == b'\\') ≡ false
  rest : is_plain s ≡ true

is_plain-IsPlain : (c : Char) (s : String) → is_plain (cons_char c s) ≡ true → IsPlain c s
unfolding is_plain
is_plain-IsPlain c s h = record {
  percent = ground arith;
  underscore = ground arith;
  backslash = ground arith;
  rest = ground arith;
}

tokens-plain :
    (p : String) → is_plain p ≡ true → tokens (append p "%") ≡ lits p ++ Token.any_text ∷ []
unfolding tokens
tokens-plain empty h = refl
tokens-plain (cons_char c p) h =
    let parts = is_plain-IsPlain c p h in
    ap tokens (append_laws.cons c p "%")
    ∙ tokens-cons c p parts.backslash
    ∙ ap (λ k. k ∷ tokens (append p "%")) (token-plain (code c) parts.percent parts.underscore)
    ∙ ap (λ ts. lit (code c) ∷ ts) (tokens-plain p parts.rest)

pattern-plain :
    (p : String)
    → is_plain p ≡ true
    → tokens (append "%" (append p "%")) ≡ Token.any_text ∷ lits p ++ Token.any_text ∷ []
pattern-plain p h =
    ap tokens (
      append_laws.cons "%" empty (append p "%")
      ∙ ap (λ u. cons_char "%" u) (append_laws.nil (append p "%")))
    ∙ tokens-cons "%" p refl
    ∙ ap (λ ts. Token.any_text ∷ ts) (tokens-plain p h)

-- For a text without `%`, `_` and backslash the filter of ListWithAccess and ListJoined passes just the
-- emails that contain it, but for the case; the empty text passes all.
pub matches_email-contains :
    (s : Server) (email_like email : String)
    → is_plain email_like ≡ true
    → matches_email s email_like email ≡ contains s.lower email_like email
unfolding matches_email
matches_email-contains s email_like email h = elim (Bool-cases (str_eq email_like "")) [
  | inl blank ↦ rw blank (
      sym (
        ap (λ p. contains s.lower p email) (str_eq_sound email_like "" blank)
        ∙ contains-empty s.lower email))
  | inr given ↦ rw (given, pattern-plain email_like h) (contains-ilike s.lower email_like email)
]
