-- ===== src/Sqlite/Rows/Texts.antt =====
-- `ASC` on texts is a total preorder.
use Prim.Native.Char.{Char, code}
use Prim.Native.Nat.{Ordering, compare as compare_ℕ}
use Prim.Native.String.{[] as empty, ◌∷◌ as cons_char, compare, then}
use Prim.Native.String.compare
use text.Mathlib.Text.{is_le}
use waitinglist.Prelude.{
  ◌≡◌, refl, sym, ap, ◌∙◌, ℕ, String, Bool, true, false, ◌&&◌, ◌||◌, ltb, ◌==◌, arith,
}
use waitinglist.Sqlite.Rows.{text_le}

is_le-then :
    (o r : Ordering)
    → is_le (then o r) ≡ (
        elim o [ Ordering.lt ↦ true | _ ↦ false ]
        || (elim o [ Ordering.eq ↦ true | _ ↦ false ] && is_le r))
is_le-then Ordering.lt r = refl
is_le-then Ordering.eq r = refl
is_le-then Ordering.gt r = refl

text_le-cons :
    (c d : Char) (s t : String)
    → text_le (cons_char c s) (cons_char d t)
      ≡ (ltb (code c) (code d) || (code c == code d && text_le s t))
text_le-cons c d s t =
    ap is_le (compare.cons-cons c d s t) ∙ is_le-then (compare_ℕ (code c) (code d)) (compare s t)

text_le-empty : (t : String) → text_le empty t ≡ true
text_le-empty empty = ap is_le compare.nil-nil
text_le-empty (cons_char d t) = ap is_le (compare.nil-cons d t)

text_le-cons_empty : (c : Char) (s : String) → text_le (cons_char c s) empty ≡ false
text_le-cons_empty c s = ap is_le (compare.cons-nil c s)

-- the first characters decide, and then the rest
lex_total :
    (a b : ℕ) (p q : Bool)
    → (p ≡ false → q ≡ true)
    → (ltb a b || (a == b && p)) ≡ false
    → (ltb b a || (b == a && q)) ≡ true
lex_total a b p q h k = ground arith

lex_trans :
    (a b c : ℕ) (p q r : Bool)
    → (p ≡ true → q ≡ true → r ≡ true)
    → (ltb a b || (a == b && p)) ≡ true
    → (ltb b c || (b == c && q)) ≡ true
    → (ltb a c || (a == c && r)) ≡ true
lex_trans a b c p q r h k l = ground arith

pub text_le_total : (s t : String) → text_le s t ≡ false → text_le t s ≡ true
text_le_total empty t h = absurd (let e = text_le-empty t in cc)
text_le_total (cons_char c s) empty h = text_le-empty (cons_char c s)
text_le_total (cons_char c s) (cons_char d t) h =
    text_le-cons d c t s
    ∙ lex_total (code c) (code d) (text_le s t) (text_le t s) (text_le_total s t)
        (sym (text_le-cons c d s t) ∙ h)

pub text_le_trans : (s t u : String) → text_le s t ≡ true → text_le t u ≡ true → text_le s u ≡ true
text_le_trans empty t u h k = text_le-empty u
text_le_trans (cons_char c s) empty u h k = absurd (let e = text_le-cons_empty c s in cc)
text_le_trans (cons_char c s) (cons_char d t) empty h k =
    absurd (let e = text_le-cons_empty d t in cc)
text_le_trans (cons_char c s) (cons_char d t) (cons_char e u) h k =
    text_le-cons c e s u
    ∙ lex_trans (code c) (code d) (code e) (text_le s t) (text_le t u) (text_le s u)
        (text_le_trans s t u) (sym (text_le-cons c d s t) ∙ h) (sym (text_le-cons d e t u) ∙ k)
