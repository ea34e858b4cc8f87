-- ===== src/Sqlite/Rows.antt =====
-- The clauses of SQL that the statements share: WHERE, LIMIT/OFFSET, LIKE and IN.
pub mod Texts
use Prim.Native.Char.{code}
use Prim.Native.String.{[] as empty, ◌∷◌ as cons_char, compare}
use text.Mathlib.Text.{is_le}
use waitinglist.Prelude.{
  ℕ, ◌+◌, ◌≡◌, refl, String, Bool, true, false, ◌&&◌, ◌||◌, List, [], ◌∷◌, map, arith, leb, ◌==◌,
  if◌then◌else◌, any, take, drop, In, In-map,
}
use waitinglist.Prelude.Int.{ℤ, pos, negsuc}
use waitinglist.Prelude.Text.{str_eq}

-- `s IN (…)`
abbrev pub is_in : List String → String → Bool
is_in ids s = any (λ t. str_eq t s) ids

-- UPDATE … SET f WHERE p
abbrev pub update_where {ℓ} : {A : Type ℓ} → (A → Bool) → (A → A) → List A → List A
update_where p f = map (λ a. if p a then f a else a)

-- LIMIT: a negative one is none. OFFSET: a negative one is zero.
abbrev pub limit_rows {ℓ} : {A : Type ℓ} → ℤ → List A → List A
limit_rows (pos n) rows = take n rows
limit_rows (negsuc _) rows = rows

abbrev pub offset_rows {ℓ} : {A : Type ℓ} → ℤ → List A → List A
offset_rows (pos n) rows = drop n rows
offset_rows (negsuc _) rows = rows

-- LIKE ignores the case of ASCII letters.
fold_case : ℕ → ℕ
fold_case c = if leb b'A' c && leb c b'Z' then c + 32 else c

-- `s LIKE p`: `%` stands for any text, `_` for any character.
unfoldable pub like : String → String → Bool
unfolding fold_case
like empty empty = true
like empty (cons_char c s) = false
like (cons_char p ps) empty = code p == b'%' && like ps empty
like (cons_char p ps) (cons_char c s) =
    let skip = like ps (cons_char c s) || like (cons_char p ps) s in
    let step = (code p == b'_' || fold_case (code p) == fold_case (code c)) && like ps s in
    if code p == b'%' then skip else step

-- `email ASC`
abbrev pub text_le : String → String → Bool
text_le a b = is_le (compare a b)

module _ {ℓ} {A : Type ℓ} (p : A → Bool) (f : A → A) where
  -- A row after an UPDATE was there before it, changed if and only if it matched.
  pub In-update_where :
      {a : A} (rows : List A)
      → In a (update_where p f rows)
      → (b : A) × In b rows × (a ≡ (if p b then f b else b))
  In-update_where rows m = In-map (λ a. if p a then f a else a) rows m

  -- An UPDATE keeps a column that it does not set.
  pub map-update_where {κ} :
      {B : Type κ} (column : A → B) (rows : List A)
      → ((a : A) → column (f a) ≡ column a)
      → map column (update_where p f rows) ≡ map column rows
  map-update_where column [] h = refl
  map-update_where column (a ∷ rows) h = ground (arith, h a, map-update_where column rows h)
