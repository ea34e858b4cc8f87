-- ===== src/Prelude/Lists.antt =====
-- Lists under native numbers and Boolean tests, and membership with its witness kept.
use Prim.Native.Nat.{ℕ, zero, suc, min}
use mathlib.Core.Path.{◌≡◌, refl, sym, ap}
use mathlib.Core.Logic.{◌⊎◌, inl, inr}
use mathlib.Core.Bool.{Bool, true, false, ◌||◌}
use mathlib.Core.List.{List, [], ◌∷◌, ◌++◌, map}
use mathlib.Core.Option.{Option, none, some}
use native.Mathlib.Omega.{arith}
use waitinglist.Prelude.Tests.{if◌then◌else◌, Bool-cases}

module _ {ℓ} {A : Type ℓ} where
  abbrev pub length : List A → ℕ
  length [] = 0
  length (x ∷ xs) = suc (length xs)

  abbrev pub is_empty : List A → Bool
  is_empty [] = true
  is_empty (_ ∷ _) = false

  abbrev pub take : ℕ → List A → List A
  take zero xs = []
  take (suc n) [] = []
  take (suc n) (x ∷ xs) = x ∷ take n xs

  abbrev pub drop : ℕ → List A → List A
  drop zero xs = xs
  drop (suc n) [] = []
  drop (suc n) (x ∷ xs) = drop n xs

  abbrev pub any : (A → Bool) → List A → Bool
  any p [] = false
  any p (x ∷ xs) = p x || any p xs

  -- The entries that pass a test, in order.
  abbrev pub keep : (A → Bool) → List A → List A
  keep p [] = []
  keep p (x ∷ xs) = if p x then x ∷ keep p xs else keep p xs

  -- The first entry that passes a test.
  abbrev pub find_first : (A → Bool) → List A → Option A
  find_first p [] = none
  find_first p (x ∷ xs) = if p x then some x else find_first p xs

-- `a` stands in the list: the place is kept, so that a proof can follow it.
pub data In {ℓ} {A : Type ℓ} (a : A) : List A → Type ℓ where
  here : {x : A} {xs : List A} → a ≡ x → In a (x ∷ xs)
  there : {x : A} {xs : List A} → In a xs → In a (x ∷ xs)

module _ {ℓ} {A : Type ℓ} where
  pub not-In-nil : {a : A} → In a [] → ⊥
  not-In-nil h = elim h [ ]

  pub In-cons : {a x : A} {xs : List A} → In a (x ∷ xs) → (a ≡ x) ⊎ In a xs
  In-cons (here e) = inl e
  In-cons (there m) = inr m

  pub length-take : (n : ℕ) (xs : List A) → length (take n xs) ≡ min n (length xs)
  length-take zero xs = omega arith
  length-take (suc n) [] = omega arith
  length-take (suc n) (x ∷ xs) = omega (arith, length-take n xs)

  pub take-append-drop : (n : ℕ) (xs : List A) → take n xs ++ drop n xs ≡ xs
  take-append-drop zero xs = refl
  take-append-drop (suc n) [] = refl
  take-append-drop (suc n) (x ∷ xs) = ground (arith, take-append-drop n xs)

module _ {ℓ} {A : Type ℓ} where
  pub In-take : {a : A} (n : ℕ) (xs : List A) → In a (take n xs) → In a xs
  In-take zero xs m = absurd (not-In-nil m)
  In-take (suc n) [] m = absurd (not-In-nil m)
  In-take (suc n) (x ∷ xs) (here e) = here e
  In-take (suc n) (x ∷ xs) (there m) = there (In-take n xs m)

  pub In-drop : {a : A} (n : ℕ) (xs : List A) → In a (drop n xs) → In a xs
  In-drop zero xs m = m
  In-drop (suc n) [] m = absurd (not-In-nil m)
  In-drop (suc n) (x ∷ xs) m = there (In-drop n xs m)

  pub In-append : {a : A} (xs ys : List A) → In a (xs ++ ys) → In a xs ⊎ In a ys
  In-append [] ys m = inr m
  In-append (x ∷ xs) ys (here e) = inl (here e)
  In-append (x ∷ xs) ys (there m) = elim (In-append xs ys m) [
    | inl l ↦ inl (there l)
    | inr r ↦ inr r
  ]

  pub In-append_left : {a : A} {xs : List A} (ys : List A) → In a xs → In a (xs ++ ys)
  In-append_left ys (here e) = here e
  In-append_left ys (there m) = there (In-append_left ys m)

  pub In-append_right : {a : A} (xs : List A) {ys : List A} → In a ys → In a (xs ++ ys)
  In-append_right [] m = m
  In-append_right (x ∷ xs) m = there (In-append_right xs m)

  pub In-if :
      {a : A} (b : Bool) (xs ys : List A)
      → In a (if b then xs else ys)
      → ((b ≡ true) × In a xs) ⊎ ((b ≡ false) × In a ys)
  In-if true xs ys m = inl (refl, m)
  In-if false xs ys m = inr (refl, m)

  pub In-keep : {a : A} (p : A → Bool) (xs : List A) → In a (keep p xs) → In a xs × (p a ≡ true)
  In-keep p [] m = absurd (not-In-nil m)
  In-keep p (x ∷ xs) m = elim (In-if (p x) (x ∷ keep p xs) (keep p xs) m) [
    | inl (t, here e) ↦ (here e, rw e t)
    | inl (t, there m') ↦ let r = In-keep p xs m' in (there r.0, r.1)
    | inr (t, m') ↦ let r = In-keep p xs m' in (there r.0, r.1)
  ]

  pub keep-In : {a : A} (p : A → Bool) (xs : List A) → In a xs → p a ≡ true → In a (keep p xs)
  keep-In p [] m t = elim m [ ]
  keep-In p (x ∷ xs) (here e) t = rw (← e, t) (here refl)
  keep-In p (x ∷ xs) (there m) t = elim (Bool-cases (p x)) [
    | inl h ↦ rw h (there (keep-In p xs m t))
    | inr h ↦ rw h (keep-In p xs m t)
  ]

  pub find_first-In :
      {a : A} (p : A → Bool) (xs : List A) → find_first p xs ≡ some a → In a xs × (p a ≡ true)
  find_first-In p [] h = absurd (cc)
  find_first-In p (x ∷ xs) h = elim (Bool-cases (p x)) [
    | inl t ↦ let e : x ≡ _ = ground arith in (here (sym e), rw (← e) t)
    | inr t ↦ let r = find_first-In p xs (ground arith) in (there r.0, r.1)
  ]

  pub find_first-none :
      {a : A} (p : A → Bool) (xs : List A) → find_first p xs ≡ none → In a xs → p a ≡ false
  find_first-none p [] h m = absurd (not-In-nil m)
  find_first-none p (x ∷ xs) h (here e) = rw e (ground arith)
  find_first-none p (x ∷ xs) h (there m) = find_first-none p xs (ground arith) m

module _ {ℓ κ} {A : Type ℓ} {B : Type κ} where
  pub In-map : {b : B} (f : A → B) (xs : List A) → In b (map f xs) → (a : A) × In a xs × (b ≡ f a)
  In-map f [] m = absurd (not-In-nil m)
  In-map f (x ∷ xs) (here e) = (x, here refl, e)
  In-map f (x ∷ xs) (there m) = let r = In-map f xs m in (r.0, there r.1, r.2)

  pub map-In : {a : A} (f : A → B) {xs : List A} → In a xs → In (f a) (map f xs)
  map-In f (here e) = here (ap f e)
  map-In f (there m) = there (map-In f m)

module _ {ℓ} {A : Type ℓ} where
  pub any-false : {a : A} (p : A → Bool) (xs : List A) → any p xs ≡ false → In a xs → p a ≡ false
  any-false p [] h m = elim m [ ]
  any-false p (x ∷ xs) h (here e) = rw e (ground arith)
  any-false p (x ∷ xs) h (there m) = any-false p xs (ground arith) m

  pub In-any : {a : A} (p : A → Bool) (xs : List A) → In a xs → p a ≡ true → any p xs ≡ true
  In-any p [] m h = elim m [ ]
  In-any p (x ∷ xs) (here e) h = rw (← e, h)
  In-any p (x ∷ xs) (there m) h = ground (arith, In-any p xs m h)

  pub any-In : (p : A → Bool) (xs : List A) → any p xs ≡ true → (a : A) × In a xs × (p a ≡ true)
  any-In p [] h = absurd (cc)
  any-In p (x ∷ xs) h = elim (Bool-cases (p x)) [
    | inl t ↦ (x, here refl, t)
    | inr f ↦ let r = any-In p xs (ground arith) in (r.0, there r.1, r.2)
  ]
