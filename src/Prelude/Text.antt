-- ===== src/Prelude/Text.antt =====
-- The functions of Go's `strings` and `strconv` that the handlers call, over native strings, and
-- the laws of text equality.
use Prim.Native.Nat.{ℕ, ◌+◌, ◌-◌, ◌*◌, ◌^◌}
use Prim.Native.Char.{code}
use Prim.Native.String.{String, [], ◌∷◌}
use mathlib.Core.Path.{◌≡◌, refl}
use mathlib.Core.Logic.{◌≢◌, ◌⊎◌, inl, inr}
use mathlib.Core.Bool.{Bool, true, false, ◌&&◌, ◌||◌}
use mathlib.Core.Option.{Option, none, some}
use native.Mathlib.Omega.{arith}
use text.Mathlib.Text.{◌==◌ as text_eq}
use text.Mathlib.TextEquality.{eq_iff}
use waitinglist.Prelude.Tests.{leb, ltb, ◌==◌, if◌then◌else◌, Bool-cases}
use waitinglist.Prelude.Int.{ℤ, pos, negsuc}

-- Go's `==` on strings.
abbrev pub str_eq : String → String → Bool
str_eq = text_eq

pub str_eq_refl : (s : String) → str_eq s s ≡ true
str_eq_refl s = (eq_iff s s).1 refl

pub str_eq_sound : (s t : String) → str_eq s t ≡ true → s ≡ t
str_eq_sound s t = (eq_iff s t).0

pub str_eq_sym : (s t : String) → str_eq s t ≡ str_eq t s
str_eq_sym s t = ground (arith, eq_iff s t, eq_iff t s)

pub str_eq-cases : (s t : String) → (s ≡ t) ⊎ ((s ≢ t) × (str_eq s t ≡ false))
str_eq-cases s t = elim (Bool-cases (str_eq s t)) [
  | inl e ↦ inl (str_eq_sound s t e)
  | inr e ↦ inr (ground (arith, eq_iff s t), e)
]

-- unicode.IsSpace, by code point.
is_space : ℕ → Bool
is_space c =
    (leb 9 c && leb c 13)
    || c == 32
    || c == 0x85
    || c == 0xa0
    || c == 0x1680
    || (leb 0x2000 c && leb c 0x200a)
    || c == 0x2028
    || c == 0x2029
    || c == 0x202f
    || c == 0x205f
    || c == 0x3000

trim_left : String → String
unfolding is_space
trim_left [] = []
trim_left (c ∷ s) = if is_space (code c) then trim_left s else c ∷ s

is_nil : String → Bool
is_nil [] = true
is_nil (_ ∷ _) = false

trim_right : String → String
unfolding is_space is_nil
trim_right [] = []
trim_right (c ∷ s) =
    let rest = trim_right s in if is_nil rest && is_space (code c) then [] else c ∷ rest

-- strings.TrimSpace
unfoldable pub trim_space : String → String
unfolding trim_left trim_right
trim_space s = trim_left (trim_right s)

-- strings.Contains with a one-character needle
unfoldable pub contains_code : ℕ → String → Bool
contains_code k [] = false
contains_code k (c ∷ s) = code c == k || contains_code k s

digits_from : ℕ → String → Option ℕ
digits_from n [] = some n
digits_from n (c ∷ s) =
    let rest = digits_from (n * 10 + (code c - 48)) s in
    if leb 48 (code c) && leb (code c) 57 then rest else none

-- at least one digit, and nothing else
unsigned : String → Option ℕ
unfolding digits_from
unsigned [] = none
unsigned (c ∷ s) = digits_from 0 (c ∷ s)

as_positive : Option ℕ → Option ℤ
as_positive none = none
as_positive (some n) = if ltb n (2 ^ 63) then some (pos n) else none

as_negative : Option ℕ → Option ℤ
as_negative none = none
as_negative (some n) =
    if n == 0 then some (pos 0) else if leb n (2 ^ 63) then some (negsuc (n - 1)) else none

-- strconv.Atoi on a 64-bit platform: an optional sign, decimal digits, and the range of `int`.
unfoldable pub atoi : String → Option ℤ
unfolding unsigned as_positive as_negative
atoi [] = none
atoi (c ∷ s) =
    if code c == b'-'
    then as_negative (unsigned s)
    else if code c == b'+'
    then as_positive (unsigned s)
    else as_positive (unsigned (c ∷ s))

atoi_signs :
    (atoi "42" ≡ some (pos 42))
    × (atoi "-7" ≡ some (negsuc 6))
    × (atoi "4x" ≡ none)
    × (atoi "" ≡ none)
    × (atoi "9223372036854775808" ≡ none)
unfolding atoi
atoi_signs = (refl, refl, refl, refl, refl)

trim_space_ends : trim_space "  a b\t\n" ≡ "a b"
unfolding trim_space
trim_space_ends = refl
