-- ===== src/Prelude/Reordered.antt =====
-- The same entries in another order, with the witness kept: a row can be followed through a scan.
use mathlib.Core.Path.{◌≡◌, refl, sym, ◌∙◌}
use mathlib.Core.Logic.{inl, inr}
use mathlib.Core.List.{List, [], ◌∷◌}
use waitinglist.Prelude.Lists.{In, here, there, In-cons}

module _ {ℓ} {A : Type ℓ} where
  pub data Reordered : List A → List A → Type ℓ where
    none_left : Reordered [] []
    same_head : {x y : A} {xs ys : List A} → x ≡ y → Reordered xs ys → Reordered (x ∷ xs) (y ∷ ys)
    exchanged : {x y u v : A} {xs : List A} → x ≡ v → y ≡ u → Reordered (x ∷ y ∷ xs) (u ∷ v ∷ xs)
    composed : {xs ys zs : List A} → Reordered xs ys → Reordered ys zs → Reordered xs zs

  pub Reordered-refl : (xs : List A) → Reordered xs xs
  Reordered-refl [] = none_left
  Reordered-refl (x ∷ xs) = same_head refl (Reordered-refl xs)

  pub Reordered-sym : {xs ys : List A} → Reordered xs ys → Reordered ys xs
  Reordered-sym none_left = none_left
  Reordered-sym (same_head e p) = same_head (sym e) (Reordered-sym p)
  Reordered-sym (exchanged e f) = exchanged (sym f) (sym e)
  Reordered-sym (composed p q) = composed (Reordered-sym q) (Reordered-sym p)

  pub In-Reordered : {a : A} {xs ys : List A} → Reordered xs ys → In a xs → In a ys
  In-Reordered none_left m = m
  In-Reordered (same_head e p) m = elim (In-cons m) [
    | inl h ↦ here (h ∙ e)
    | inr k ↦ there (In-Reordered p k)
  ]
  In-Reordered (exchanged e f) m = elim (In-cons m) [
    | inl h ↦ there (here (h ∙ e))
    | inr k ↦ elim (In-cons k) [ inl h ↦ here (h ∙ f) | inr l ↦ there (there l) ]
  ]
  In-Reordered (composed p q) m = In-Reordered q (In-Reordered p m)
