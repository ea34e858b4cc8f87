-- ===== src/Prelude/Filters.antt =====
-- What a filter does not see: entries that it drops may come, go and change.
use waitinglist.Prelude.{
  ◌≡◌, refl, ◌∙◌, Bool, true, false, not, List, [], ◌∷◌, ◌++◌, map, keep, In, here, there,
  Bool-cases, inl, inr, if◌then◌else◌,
}

module _ {ℓ} {A : Type ℓ} (other : A → Bool) where
  keep_cons :
      (x y : A) (xs ys : List A)
      → other x ≡ false
      → other y ≡ false
      → keep other xs ≡ keep other ys
      → keep other (x ∷ xs) ≡ keep other (y ∷ ys)
  keep_cons x y xs ys hx hy h = rw (hx, hy) h

  keep_both :
      (x : A) (xs ys : List A)
      → keep other xs ≡ keep other ys
      → keep other (x ∷ xs) ≡ keep other (x ∷ ys)
  keep_both x xs ys h = rw h refl

  pub keep-snoc :
      (xs : List A) (x : A) → other x ≡ false → keep other (xs ++ x ∷ []) ≡ keep other xs
  keep-snoc [] x h = rw h refl
  keep-snoc (y ∷ xs) x h = keep_both y (xs ++ x ∷ []) xs (keep-snoc xs x h)

  -- dropped entries are deleted
  pub keep-keep :
      (p : A → Bool) (xs : List A)
      → ((x : A) → In x xs → p x ≡ true → other x ≡ false)
      → keep other (keep (λ x. not (p x)) xs) ≡ keep other xs
  keep-keep p [] h = refl
  keep-keep p (x ∷ xs) h =
      let rest = keep-keep p xs (λ y m. h y (there m)) in
      elim (Bool-cases (p x)) [
        | inl t ↦ rw (t, h x (here refl) t) rest
        | inr f ↦ rw f (keep_both x (keep (λ x. not (p x)) xs) xs rest)
      ]

  -- dropped entries are changed, and are dropped afterwards too
  pub keep-update :
      (p : A → Bool) (f : A → A) (xs : List A)
      → ((x : A) → In x xs → p x ≡ true → other x ≡ false)
      → ((x : A) → other (f x) ≡ other x)
      → keep other (map (λ a. if p a then f a else a) xs) ≡ keep other xs
  keep-update p f [] h same = refl
  keep-update p f (x ∷ xs) h same =
      let rest = keep-update p f xs (λ y m. h y (there m)) same in
      let changed = map (λ a. if p a then f a else a) xs in
      elim (Bool-cases (p x)) [
        | inl t ↦
            rw t
              (keep_cons (f x) x changed xs (same x ∙ h x (here refl) t) (h x (here refl) t) rest)
        | inr n ↦ rw n (keep_both x changed xs rest)
      ]
