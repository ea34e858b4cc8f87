-- ===== src/Prelude/Selected.antt =====
-- What a SELECT answers, described without its functions: the rows that meet a condition, in an order,
-- and of those a page.
use mathlib.Core.List.{Perm}
use mathlib.Core.List.Perm
use waitinglist.Prelude.{
  ◌≡◌, refl, subst, Bool, true, false, inl, inr, Bool-cases, List, [], ◌∷◌, keep, In,
}
use waitinglist.Prelude.Order.{
  IsOrdered, nil, cons, IsPreorder, order_by, order_by-IsOrdered, order_by-perm,
}
use waitinglist.Prelude.Reordered.{
  Reordered, Reordered-refl, none_left, same_head, exchanged, composed,
}

module _ {ℓ} {A : Type ℓ} where
  -- The second list has, in order, just those of the first of which `P` holds.
  pub data IsSelection (P : A → Type 0) : List A → List A → Type ℓ where
    nothing : IsSelection P [] []
    taken : {x : A} {xs ys : List A} → P x → IsSelection P xs ys → IsSelection P (x ∷ xs) (x ∷ ys)
    left_out :
        {x : A} {xs ys : List A} → (P x → ⊥) → IsSelection P xs ys → IsSelection P (x ∷ xs) ys

  -- Each comes before, or ties with, all behind it.
  pub data IsSorted (Before : A → A → Type 0) : List A → Type ℓ where
    nothing : IsSorted Before []
    first :
        {x : A} {xs : List A}
        → ((y : A) → In y xs → Before x y)
        → IsSorted Before xs
        → IsSorted Before (x ∷ xs)

  -- A test decides a condition.
  pub record Decides (p : A → Bool) (P : A → Type 0) : Type ℓ where
    pub sound : (x : A) → p x ≡ true → P x
    pub complete : (x : A) → p x ≡ false → P x → ⊥

  pub keep-IsSelection :
      {P : A → Type 0} (p : A → Bool) (xs : List A) → Decides p P → IsSelection P xs (keep p xs)
  keep-IsSelection p [] d = nothing
  keep-IsSelection p (x ∷ xs) d = elim (Bool-cases (p x)) [
    | inl t ↦ rw t (taken (d.sound x t) (keep-IsSelection p xs d))
    | inr f ↦ rw f (left_out (d.complete x f) (keep-IsSelection p xs d))
  ]

  pub IsOrdered-IsSorted :
      {Before : A → A → Type 0} (le : A → A → Bool) {xs : List A}
      → ((x y : A) → le x y ≡ true → Before x y)
      → IsOrdered le xs
      → IsSorted Before xs
  IsOrdered-IsSorted le h nil = nothing
  IsOrdered-IsSorted le h (cons {x = x} before rest) =
      first (λ y m. h x y (before y m)) (IsOrdered-IsSorted le h rest)

  pub Reordered-Perm : {xs ys : List A} → Reordered xs ys → Perm xs ys
  Reordered-Perm none_left = Perm.refl _
  Reordered-Perm (same_head {x = x} {xs = xs} {ys = ys} e p) =
      subst (λ z. Perm (x ∷ xs) (z ∷ ys)) e (Perm.cons x (Reordered-Perm p))
  Reordered-Perm (exchanged {x = x} {y = y} {u = u} {xs = xs} e f) =
      subst (λ v. Perm (x ∷ y ∷ xs) (u ∷ v ∷ xs)) e
        (subst (λ z. Perm (x ∷ y ∷ xs) (z ∷ x ∷ xs)) f (Perm.swap y x xs))
  Reordered-Perm (composed p q) = Perm.trans (Reordered-Perm p) (Reordered-Perm q)

  keep_head :
      (p : A → Bool) (x : A) (xs ys : List A)
      → Reordered (keep p xs) (keep p ys)
      → Reordered (keep p (x ∷ xs)) (keep p (x ∷ ys))
  keep_head p x xs ys h = elim (Bool-cases (p x)) [
    | inl t ↦ rw t (same_head refl h)
    | inr f ↦ rw f h
  ]

  keep_swap :
      (p : A → Bool) (x y : A) (xs : List A) → Reordered (keep p (x ∷ y ∷ xs)) (keep p (y ∷ x ∷ xs))
  keep_swap p x y xs = elim (Bool-cases (p x)) [
    | inl t ↦ elim (Bool-cases (p y)) [
      | inl u ↦ rw (t, u) (exchanged refl refl)
      | inr g ↦ rw (t, g) (Reordered-refl _)
    ]
    | inr f ↦ rw f (Reordered-refl _)
  ]

  pub keep-Reordered :
      (p : A → Bool) {xs ys : List A} → Reordered xs ys → Reordered (keep p xs) (keep p ys)
  keep-Reordered p none_left = none_left
  keep-Reordered p (same_head {x = x} {xs = xs} {ys = ys} e h) =
      subst (λ z. Reordered (keep p (x ∷ xs)) (keep p (z ∷ ys))) e
        (keep_head p x xs ys (keep-Reordered p h))
  keep-Reordered p (exchanged {x = x} {y = y} {u = u} {xs = xs} e f) =
      subst (λ v. Reordered (keep p (x ∷ y ∷ xs)) (keep p (u ∷ v ∷ xs))) e
        (subst (λ z. Reordered (keep p (x ∷ y ∷ xs)) (keep p (z ∷ x ∷ xs))) f (keep_swap p x y xs))
  keep-Reordered p (composed h k) = composed (keep-Reordered p h) (keep-Reordered p k)

-- The rows of a table that a SELECT answers before LIMIT and OFFSET: those of which `P` holds, sorted.
pub record IsAnswered {ℓ} {A : Type ℓ} (P : A → Type 0) (Before : A → A → Type 0)
    (table rows : List A) : Type ℓ where
  pub selected : List A
  pub chosen : IsSelection P table selected
  pub complete : Perm rows selected
  pub sorted : IsSorted Before rows

pub order_by-IsAnswered {ℓ} :
    {A : Type ℓ} {P : A → Type 0} {Before : A → A → Type 0} (p : A → Bool) (le : A → A → Bool)
    {scan table : List A}
    → Reordered scan table
    → Decides p P
    → IsPreorder le
    → ((x y : A) → le x y ≡ true → Before x y)
    → IsAnswered P Before table (order_by le (keep p scan))
order_by-IsAnswered p le {scan = scan} {table = table} once d pre h = record {
  selected = keep p table;
  chosen = keep-IsSelection p table d;
  complete = Perm.trans (order_by-perm le (keep p scan)) (Reordered-Perm (keep-Reordered p once));
  sorted = IsOrdered-IsSorted le h (order_by-IsOrdered le pre (keep p scan));
}
