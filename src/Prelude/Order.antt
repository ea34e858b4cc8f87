-- ===== src/Prelude/Order.antt =====
-- ORDER BY: a stable sort by a Boolean order, with what is needed of its result.
use Prim.Native.Nat.{ℕ, zero, suc}
use mathlib.Core.Path.{◌≡◌, refl, sym, subst, ap, ◌∙◌}
use mathlib.Core.Logic.{◌⊎◌, inl, inr}
use mathlib.Core.Bool.{Bool, true, false}
use mathlib.Core.List.{List, [], ◌∷◌, Perm}
use mathlib.Core.List.Perm
use waitinglist.Prelude.Tests.{if◌then◌else◌, Bool-cases}
use waitinglist.Prelude.Lists.{In, here, there, not-In-nil, In-cons, In-if, In-drop, take, drop}

module _ {ℓ} {A : Type ℓ} (le : A → A → Bool) where
  unfoldable pub insert_by : A → List A → List A
  insert_by a [] = a ∷ []
  insert_by a (x ∷ xs) = if le a x then a ∷ x ∷ xs else x ∷ insert_by a xs

  unfoldable pub order_by : List A → List A
  unfolding insert_by
  order_by [] = []
  order_by (x ∷ xs) = insert_by x (order_by xs)

  -- every entry comes before, or ties with, each one behind it
  pub data IsOrdered : List A → Type ℓ where
    nil : IsOrdered []
    cons :
        {x : A} {xs : List A}
        → ((y : A) → In y xs → le x y ≡ true)
        → IsOrdered xs
        → IsOrdered (x ∷ xs)

  pub In-insert_by : {b : A} (a : A) (xs : List A) → In b (insert_by a xs) → (b ≡ a) ⊎ In b xs
  unfolding insert_by
  In-insert_by a [] (here e) = inl e
  In-insert_by a [] (there m) = inr m
  In-insert_by a (x ∷ xs) m = elim (In-if (le a x) (a ∷ x ∷ xs) (x ∷ insert_by a xs) m) [
    | inl (t, here e) ↦ inl e
    | inl (t, there m') ↦ inr m'
    | inr (t, here e) ↦ inr (here e)
    | inr (t, there m') ↦ elim (In-insert_by a xs m') [ inl e ↦ inl e | inr k ↦ inr (there k) ]
  ]

  pub insert_by-perm : (a : A) (xs : List A) → Perm (insert_by a xs) (a ∷ xs)
  unfolding insert_by
  insert_by-perm a [] = Perm.refl _
  insert_by-perm a (x ∷ xs) = elim (Bool-cases (le a x)) [
    | inl t ↦ rw t (Perm.refl _)
    | inr t ↦ rw t (Perm.trans (Perm.cons x (insert_by-perm a xs)) (Perm.swap a x xs))
  ]

  -- Sorting loses and invents no row.
  pub order_by-perm : (xs : List A) → Perm (order_by xs) xs
  unfolding order_by
  order_by-perm [] = Perm.refl _
  order_by-perm (x ∷ xs) =
      Perm.trans (insert_by-perm x (order_by xs)) (Perm.cons x (order_by-perm xs))

  pub In-order_by : {a : A} (xs : List A) → In a (order_by xs) → In a xs
  unfolding order_by
  In-order_by [] m = m
  In-order_by (x ∷ xs) m = elim (In-insert_by x (order_by xs) m) [
    | inl e ↦ here e
    | inr k ↦ there (In-order_by xs k)
  ]

  insert_by-In : {b : A} (a : A) (xs : List A) → (b ≡ a) ⊎ In b xs → In b (insert_by a xs)
  unfolding insert_by
  insert_by-In a [] (inl e) = here e
  insert_by-In a [] (inr m) = there m
  insert_by-In a (x ∷ xs) m = elim (Bool-cases (le a x)) [
    | inl t ↦ rw t (elim m [ inl e ↦ here e | inr k ↦ there k ])
    | inr t ↦ rw t (elim m [
      | inl e ↦ there (insert_by-In a xs (inl e))
      | inr (here e) ↦ here e
      | inr (there k) ↦ there (insert_by-In a xs (inr k))
    ])
  ]

  pub order_by-In : {a : A} (xs : List A) → In a xs → In a (order_by xs)
  unfolding order_by
  order_by-In [] m = elim m [ ]
  order_by-In (x ∷ xs) (here e) = insert_by-In x (order_by xs) (inl e)
  order_by-In (x ∷ xs) (there m) = insert_by-In x (order_by xs) (inr (order_by-In xs m))

  -- A total preorder, which ORDER BY on columns always is.
  pub record IsPreorder : Type ℓ where
    pub total : (x y : A) → le x y ≡ false → le y x ≡ true
    pub trans : (x y z : A) → le x y ≡ true → le y z ≡ true → le x z ≡ true

  module _ (pre : IsPreorder) where
    insert_by-IsOrdered : (a : A) {xs : List A} → IsOrdered xs → IsOrdered (insert_by a xs)
    unfolding insert_by
    insert_by-IsOrdered a nil = cons (λ y m. absurd (not-In-nil m)) nil
    insert_by-IsOrdered a (cons {x = x} {xs = xs} h t) = elim (Bool-cases (le a x)) [
      | inl first ↦ rw first (
          cons {x = a} {xs = x ∷ xs}
            (λ y m. elim (In-cons m) [
              | inl e ↦ subst (λ z. le a z ≡ true) (sym e) first
              | inr k ↦ pre.trans a x y first (h y k)
            ])
            (cons h t))
      | inr later ↦ rw later (
          cons {x = x} {xs = insert_by a xs}
            (λ y m. elim (In-insert_by a xs m) [
              | inl e ↦ subst (λ z. le x z ≡ true) (sym e) (pre.total a x later)
              | inr k ↦ h y k
            ])
            (insert_by-IsOrdered a t))
    ]

    pub order_by-IsOrdered : (xs : List A) → IsOrdered (order_by xs)
    unfolding order_by
    order_by-IsOrdered [] = nil
    order_by-IsOrdered (x ∷ xs) = insert_by-IsOrdered x (order_by-IsOrdered xs)

  -- In a sorted table every row of the first `n` comes before every row that is left.
  pub take-le-drop :
      (xs : List A) (n : ℕ) {a b : A}
      → IsOrdered xs
      → In a (take n xs)
      → In b (drop n xs)
      → le a b ≡ true
  take-le-drop xs zero s m k = absurd (not-In-nil m)
  take-le-drop [] (suc n) s m k = absurd (not-In-nil m)
  take-le-drop (x ∷ xs) (suc n) {a = a} {b = b} (cons h t) (here e) k =
      subst (λ z. le z b ≡ true) (sym e) (h b (In-drop n xs k))
  take-le-drop (x ∷ xs) (suc n) (cons h t) (there m) k = take-le-drop xs n t m k

module _ {ℓ} {A : Type ℓ} (le ge : A → A → Bool) where
  insert_by-cong :
      (a : A) (xs : List A)
      → ((y : A) → In y xs → le a y ≡ ge a y)
      → insert_by le a xs ≡ insert_by ge a xs
  unfolding insert_by
  insert_by-cong a [] h = refl
  insert_by-cong a (x ∷ xs) h =
      rw (h x (here refl), insert_by-cong a xs (λ y m. h y (there m))) refl

  -- Orders that agree on the rows sort them alike.
  pub order_by-cong :
      (xs : List A)
      → ((x y : A) → In x xs → In y xs → le x y ≡ ge x y)
      → order_by le xs ≡ order_by ge xs
  unfolding order_by
  order_by-cong [] h = refl
  order_by-cong (x ∷ xs) h =
      ap (insert_by le x) (order_by-cong xs (λ y z my mz. h y z (there my) (there mz)))
      ∙ insert_by-cong x (order_by ge xs) (λ y m. h x y (here refl) (there (In-order_by ge xs m)))
