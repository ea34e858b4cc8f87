-- ===== src/Postgres/Server.antt =====
-- What a PostgreSQL server does with the values and the rows of one call, as far as
-- migrations/postgres/001_init.sql and the statements of internal/repository/postgres leave it open.
use Prim.Native.Char.{Char, code}
use Prim.Native.String.{[] as empty, ◌∷◌ as cons_char}
use waitinglist.Prelude.Reordered.{Reordered}
use waitinglist.Prelude.{
  ℕ, zero, suc, ◌≡◌, refl, String, Bool, true, false, ◌&&◌, ◌||◌, Option, none, some, List, [], ◌∷◌,
  ◌==◌, if◌then◌else◌,
}
use waitinglist.Prelude.Order.{IsPreorder}
use waitinglist.Model.{Time, failed, UserEntity}
use waitinglist.Store.{WaitingRow}
use waitinglist.Store.Monad.{M, pure, raise, ◌>>=◌}

-- `uuid` and `inet` read a text as a value of the type, and give its canonical text; `micros` is the
-- instant with microseconds that an instant is read as; `collate` is `ASC` on texts, and `lower` the
-- lower case of a character. `scan_users` and `scan_waiting` are the order in which a statement meets
-- the rows of a table.
pub record Server : Type 0 where
  pub uuid : String → Option String
  pub inet : String → Option String
  pub micros : Time → Time
  pub collate : String → String → Bool
  pub lower : ℕ → ℕ
  pub scan_users : List UserEntity → List UserEntity
  pub scan_waiting : List WaitingRow → List WaitingRow

-- What PostgreSQL documents of these: a scan meets each row once, a canonical text is read as
-- itself, and a collation is a total preorder.
pub record IsServer (s : Server) : Type 0 where
  pub users_once : (us : List UserEntity) → Reordered (s.scan_users us) us
  pub waiting_once : (rs : List WaitingRow) → Reordered (s.scan_waiting rs) rs
  pub canonical : (t c : String) → s.uuid t ≡ some c → s.uuid c ≡ some c
  pub collate_order : IsPreorder s.collate

-- A value that is not of its column's type is an error of the statement.
unfoldable pub typed : {A : Type 0} → Option A → M A
unfolding pure raise
typed none = raise failed
typed (some a) = pure a

-- the elements of a `uuid[]`
unfoldable pub typed_all : (String → Option String) → List String → M (List String)
unfolding typed pure
typed_all read [] = pure []
typed_all read (t ∷ ts) = do a ← typed (read t); rest ← typed_all read ts; pure (a ∷ rest)

-- an address that may be NULL
unfoldable pub typed_null : (String → Option String) → Option String → M (Option String)
unfolding typed pure
typed_null read none = pure none
typed_null read (some t) = do a ← typed (read t); pure (some a)

abbrev pub all_spaces : String → Bool
all_spaces empty = true
all_spaces (cons_char c s) = code c == b' ' && all_spaces s

abbrev pub with_char : Char → Option String → Option String
with_char c none = none
with_char c (some s) = some (cons_char c s)

-- `varchar(n)`: what is too long is an error, unless only spaces are cut off.
unfoldable pub varchar : ℕ → String → Option String
varchar n empty = some empty
varchar zero (cons_char c s) = if all_spaces (cons_char c s) then some empty else none
varchar (suc n) (cons_char c s) = with_char c (varchar n s)

-- A pattern of LIKE, read: any text, any character, or this character.
pub data Token : Type 0 where
  any_text any_char : Token
  lit : ℕ → Token

abbrev pub token : ℕ → Token
token c = if c == b'%' then Token.any_text else if c == b'_' then Token.any_char else lit c

-- The backslash takes the meaning from the character behind it.
unfoldable pub tokens : String → List Token
tokens empty = []
tokens (cons_char p empty) = token (code p) ∷ []
tokens (cons_char p (cons_char q ps)) = elim (code p == b'\\') [
  | true ↦ lit (code q) ∷ tokens ps
  | false ↦ token (code p) ∷ tokens (cons_char q ps)
]

-- `s ILIKE p` for the pattern's tokens
unfoldable pub ilike : (ℕ → ℕ) → List Token → String → Bool
ilike lower [] empty = true
ilike lower [] (cons_char c s) = false
ilike lower (Token.any_text ∷ ps) empty = ilike lower ps empty
ilike lower (Token.any_text ∷ ps) (cons_char c s) =
    ilike lower ps (cons_char c s) || ilike lower (Token.any_text ∷ ps) s
ilike lower (Token.any_char ∷ ps) empty = false
ilike lower (Token.any_char ∷ ps) (cons_char c s) = ilike lower ps s
ilike lower (lit p ∷ ps) empty = false
ilike lower (lit p ∷ ps) (cons_char c s) = lower p == lower (code c) && ilike lower ps s

ilike_escapes : ilike (λ c. c) (tokens "%a\\_b%") "xa_b" ≡ true
unfolding ilike tokens
ilike_escapes = refl

ilike_wildcard : ilike (λ c. c) (tokens "%a\\_b%") "xaxb" ≡ false
unfolding ilike tokens
ilike_wildcard = refl
