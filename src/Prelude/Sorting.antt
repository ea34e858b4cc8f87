-- ===== src/Prelude/Sorting.antt =====
-- ORDER BY on columns that no two rows agree on: the order in which the rows are met does not matter.
use waitinglist.Prelude.{
  ◌≡◌, refl, sym, subst, ap, ◌∙◌, true, false, Bool, inl, inr, Bool-cases, List, [], ◌∷◌, In, here,
  there,
}
use waitinglist.Prelude.Order.{IsPreorder, insert_by, order_by}
use waitinglist.Prelude.Reordered.{
  Reordered, none_left, same_head, exchanged, composed, In-Reordered, Reordered-sym,
}

module _ {ℓ} {A : Type ℓ} (le : A → A → Bool) (pre : IsPreorder le) where
  insert_first : (a x : A) (xs : List A) → le a x ≡ true → insert_by le a (x ∷ xs) ≡ a ∷ x ∷ xs
  unfolding insert_by
  insert_first a x xs h = rw h refl

  insert_later :
      (a x : A) (xs : List A) → le a x ≡ false → insert_by le a (x ∷ xs) ≡ x ∷ insert_by le a xs
  unfolding insert_by
  insert_later a x xs h = rw h refl

  insert_nil : (a : A) → insert_by le a [] ≡ a ∷ []
  unfolding insert_by
  insert_nil a = refl

  insert_before :
      (x y : A) (zs : List A)
      → le x y ≡ true
      → le y x ≡ false
      → insert_by le x (insert_by le y zs) ≡ insert_by le y (insert_by le x zs)
  insert_before x y [] h k =
      rw (insert_nil x, insert_nil y)
        (insert_first x y [] h ∙ sym (insert_later y x [] k ∙ ap (λ l. x ∷ l) (insert_nil y)))
  insert_before x y (z ∷ zs) h k = elim (Bool-cases (le y z)) [
    | inl yz ↦
        ap (insert_by le x) (insert_first y z zs yz)
        ∙ insert_first x y (z ∷ zs) h
        ∙ sym (
            ap (insert_by le y) (insert_first x z zs (pre.trans x y z h yz))
            ∙ insert_later y x (z ∷ zs) k
            ∙ ap (λ l. x ∷ l) (insert_first y z zs yz))
    | inr not_yz ↦ elim (Bool-cases (le x z)) [
      | inl xz ↦
          ap (insert_by le x) (insert_later y z zs not_yz)
          ∙ insert_first x z (insert_by le y zs) xz
          ∙ sym (
              ap (insert_by le y) (insert_first x z zs xz)
              ∙ insert_later y x (z ∷ zs) k
              ∙ ap (λ l. x ∷ l) (insert_later y z zs not_yz))
      | inr not_xz ↦
          ap (insert_by le x) (insert_later y z zs not_yz)
          ∙ insert_later x z (insert_by le y zs) not_xz
          ∙ ap (λ l. z ∷ l) (insert_before x y zs h k)
          ∙ sym (
              ap (insert_by le y) (insert_later x z zs not_xz)
              ∙ insert_later y z (insert_by le x zs) not_yz)
    ]
  ]

  insert_both :
      (x y : A) (zs : List A)
      → (le x y ≡ true → le y x ≡ true → x ≡ y)
      → insert_by le x (insert_by le y zs) ≡ insert_by le y (insert_by le x zs)
  insert_both x y zs apart = elim (Bool-cases (le x y)) [
    | inl xy ↦ elim (Bool-cases (le y x)) [
      | inl yx ↦
          subst (λ v. insert_by le x (insert_by le v zs) ≡ insert_by le v (insert_by le x zs))
            (apart xy yx) refl
      | inr not_yx ↦ insert_before x y zs xy not_yx
    ]
    | inr not_xy ↦ sym (insert_before y x zs (pre.total x y not_xy) not_xy)
  ]

  -- Rows that tie in the order are the same row.
  abbrev pub AreApart : List A → Type ℓ
  AreApart xs = (x y : A) → In x xs → In y xs → le x y ≡ true → le y x ≡ true → x ≡ y

  pub order_by-Reordered :
      {xs ys : List A} → Reordered xs ys → AreApart xs → order_by le xs ≡ order_by le ys
  unfolding order_by
  order_by-Reordered none_left apart = refl
  order_by-Reordered (same_head {x = x} {ys = ys} e p) apart =
      ap (insert_by le x) (order_by-Reordered p (λ a b m k. apart a b (there m) (there k)))
      ∙ ap (λ z. insert_by le z (order_by le ys)) e
  order_by-Reordered (exchanged {x = x} {y = y} {u = u} {v = v} {xs = xs} e f) apart =
      insert_both x y (order_by le xs) (apart x y (here refl) (there (here refl)))
      ∙ ap (λ z. insert_by le y (insert_by le z (order_by le xs))) e
      ∙ ap (λ z. insert_by le z (insert_by le v (order_by le xs))) f
  order_by-Reordered (composed p q) apart =
      order_by-Reordered p apart
      ∙ order_by-Reordered q
          λ a b m k. apart a b (In-Reordered (Reordered-sym p) m) (In-Reordered (Reordered-sym p) k)
