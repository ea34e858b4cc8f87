-- ===== src/Http/Net/Origin.antt =====
-- internal/handler/ip.go: which address `ClientIP` takes for the client's.
use Prim.Native.Char.{Char, code}
use Prim.Native.String.{[] as empty, ◌∷◌ as cons_char}
use waitinglist.Prelude.{
  ◌≡◌, ◌≢◌, inl, inr, refl, sym, subst, ◌⊎◌, String, true, false, Bool-cases, Option, none, some,
  List, [], ◌∷◌, ◌==◌, sym,
}
use waitinglist.Prelude.Text.{str_eq, str_eq-cases, str_eq_refl, trim_space, contains_code}
use waitinglist.Http.Types.{Request}
use waitinglist.Http.Net.{
  before, behind, split_commas, first_part_gets, first_part, forwarded, real_ip_or, strip_port,
  or_else, client_ip,
}

-- The first part of a header, up to its first comma, without the space around it.
abbrev pub leading_entry : String → String
leading_entry s = trim_space (before b',' s)

-- What a header with commas says: its first entry that is not blank, if it has one.
pub data IsForwarded : String → Option String → Type 0 where
  entry : (s : String) → leading_entry s ≢ "" → IsForwarded s (some (leading_entry s))
  next :
      (s : String) (o : Option String)
      → leading_entry s ≡ ""
      → contains_code b',' s ≡ true
      → IsForwarded (behind b',' s) o
      → IsForwarded s o
  nothing : (s : String) → leading_entry s ≡ "" → contains_code b',' s ≡ false → IsForwarded s none

-- Where an address of a client comes from.
pub data IsOrigin (r : Request) : String → Type 0 where
  proxies : (ip : String) → IsForwarded (r.header "X-Forwarded-For") (some ip) → IsOrigin r ip
  proxy :
      IsForwarded (r.header "X-Forwarded-For") none
      → trim_space (r.header "X-Real-Ip") ≢ ""
      → IsOrigin r (trim_space (r.header "X-Real-Ip"))
  connection :
      IsForwarded (r.header "X-Forwarded-For") none
      → trim_space (r.header "X-Real-Ip") ≡ ""
      → IsOrigin r (strip_port r.remote_addr)

blank-cases : (s : String) → ((s ≡ "") × (str_eq s "" ≡ true)) ⊎ ((s ≢ "") × (str_eq s "" ≡ false))
blank-cases s = elim (str_eq-cases s "") [
  | inl blank ↦ inl (blank, subst (λ t. str_eq t "" ≡ true) (sym blank) (str_eq_refl ""))
  | inr other ↦ inr other
]

-- strings.SplitSeq(s, ",")
data IsSplit : String → List String → Type 0 where
  last : (s : String) → contains_code b',' s ≡ false → IsSplit s (before b',' s ∷ [])
  comma :
      (s : String) (ps : List String)
      → contains_code b',' s ≡ true
      → IsSplit (behind b',' s) ps
      → IsSplit s (before b',' s ∷ ps)

gets-IsSplit :
    (c : Char) (s : String) (ps : List String)
    → (code c == b',') ≡ false
    → IsSplit s ps
    → IsSplit (cons_char c s) (first_part_gets c ps)
unfolding before behind contains_code first_part_gets
gets-IsSplit c s _ other (IsSplit.last _ none_left) =
    let head : before b',' (cons_char c s) ≡ cons_char c (before b',' s) = rw other refl in
    subst (λ p. IsSplit (cons_char c s) (p ∷ [])) head
      (IsSplit.last (cons_char c s) (rw other none_left))
gets-IsSplit c s _ other (IsSplit.comma _ ps more rest) =
    let head : before b',' (cons_char c s) ≡ cons_char c (before b',' s) = rw other refl in
    subst (λ p. IsSplit (cons_char c s) (p ∷ ps)) head
      (IsSplit.comma (cons_char c s) ps (rw other more) (rw other rest))

split_commas-IsSplit : (s : String) → IsSplit s (split_commas s)
unfolding before behind contains_code split_commas
split_commas-IsSplit empty = IsSplit.last empty refl
split_commas-IsSplit (cons_char c s) = elim (Bool-cases (code c == b',')) [
  | inl same ↦
      let head : before b',' (cons_char c s) ≡ "" = rw same refl in
      rw same (
        subst (λ p. IsSplit (cons_char c s) (p ∷ split_commas s)) head
          (IsSplit.comma (cons_char c s) (split_commas s) (rw same refl)
            (rw same (split_commas-IsSplit s))))
  | inr other ↦ rw other (gets-IsSplit c s (split_commas s) other (split_commas-IsSplit s))
]

first_part-IsForwarded :
    (s : String) (ps : List String) → IsSplit s ps → IsForwarded s (first_part ps)
unfolding first_part
first_part-IsForwarded s _ (IsSplit.last _ alone) = elim (blank-cases (leading_entry s)) [
  | inl (blank, empty_text) ↦ rw empty_text (IsForwarded.nothing s blank alone)
  | inr (given, different) ↦ rw different (IsForwarded.entry s given)
]
first_part-IsForwarded s _ (IsSplit.comma _ ps more rest) = elim (blank-cases (leading_entry s)) [
  | inl (blank, empty_text) ↦ rw empty_text (
      IsForwarded.next s (first_part ps) blank more
        (first_part-IsForwarded (behind b',' s) ps rest))
  | inr (given, different) ↦ rw different (IsForwarded.entry s given)
]

forwarded-IsForwarded : (s : String) → IsForwarded s (forwarded s)
unfolding forwarded before contains_code trim_space
forwarded-IsForwarded s = elim (blank-cases s) [
  | inl (blank, _) ↦
      subst (λ t. IsForwarded t (forwarded t)) (sym blank) (IsForwarded.nothing "" refl refl)
  | inr (_, given) ↦ rw given (first_part-IsForwarded s (split_commas s) (split_commas-IsSplit s))
]

unless_forwarded :
    (r : Request) (o : Option String)
    → IsForwarded (r.header "X-Forwarded-For") o
    → IsOrigin r (or_else o (real_ip_or (trim_space (r.header "X-Real-Ip")) r.remote_addr))
unfolding real_ip_or
unless_forwarded r (some ip) h = IsOrigin.proxies ip h
unless_forwarded r none h = elim (blank-cases (trim_space (r.header "X-Real-Ip"))) [
  | inl (blank, empty_text) ↦ rw empty_text (IsOrigin.connection h blank)
  | inr (given, different) ↦ rw different (IsOrigin.proxy h given)
]

-- ClientIP answers the first entry of X-Forwarded-For that is not blank, without the space around it;
-- where there is none, X-Real-Ip without the space around it, if that is not blank; and otherwise the
-- address of the connection without its port.
pub client_ip-IsOrigin : (r : Request) → IsOrigin r (client_ip r)
unfolding client_ip
client_ip-IsOrigin r =
    unless_forwarded r (forwarded (r.header "X-Forwarded-For"))
      (forwarded-IsForwarded (r.header "X-Forwarded-For"))
