-- ===== src/Store/Ensures.antt =====
-- Preconditions and postconditions of repository methods: a method that fails owes nothing, since
-- the caller then rolls its transaction back.
use waitinglist.Prelude.{Bool, true, false, ◌≡◌, refl, if◌then◌else◌}
use waitinglist.Model.{Error, Result, ok, err}
use waitinglist.Store.{Db, World}
use waitinglist.Store.Monad.{M, pure, raise, ◌>>=◌, proceed}
use waitinglist.Store.Keeps.{Keeps}

abbrev pub Answers : {A : Type 0} → (A → Db → Type 0) → Result A × World → Type 0
Answers Q (ok a, w) = Q a w.db
Answers Q (err _, w) = Unit

pub record Ensures {A : Type 0} (P : Db → Type 0) (m : M A) (Q : A → Db → Type 0) : Type 0 where
  pub at : (w : World) → P w.db → Answers Q (m w)

weaken-Answers :
    {A : Type 0} (P : Db → Type 0) (r : Result A × World) → P r.1.db → Answers (λ _. P) r
weaken-Answers P (ok a, w) h = h
weaken-Answers P (err _, w) h = tt

proceed-Answers :
    {A B : Type 0} {Q : A → Db → Type 0} {R : B → Db → Type 0} (r : Result A × World) (f : A → M B)
    → Answers Q r
    → ((a : A) → Ensures (Q a) (f a) R)
    → Answers R (proceed r.0 f r.1)
proceed-Answers (ok a, w) f h k = (k a).at w h
proceed-Answers (err _, w) f h k = tt

module _ {P : Db → Type 0} where
  pub Ensures-pure :
      {A : Type 0} {Q : A → Db → Type 0} (a : A)
      → ((db : Db) → P db → Q a db)
      → Ensures P (pure a) Q
  unfolding pure
  Ensures-pure a h = record { at = λ w k. h w.db k }

  pub Ensures-raise : {A : Type 0} {Q : A → Db → Type 0} (e : Error) → Ensures P (raise {A = A} e) Q
  unfolding raise
  Ensures-raise e = record { at = λ w k. tt }

  pub Ensures-if :
      {A : Type 0} {Q : A → Db → Type 0} (b : Bool) (m n : M A)
      → (b ≡ true → Ensures P m Q)
      → (b ≡ false → Ensures P n Q)
      → Ensures P (if b then m else n) Q
  Ensures-if true m n km kn = km refl
  Ensures-if false m n km kn = kn refl

  pub Ensures-kept : {A : Type 0} (m : M A) → Keeps P m → Ensures P m (λ _. P)
  Ensures-kept m k = record { at = λ w h. weaken-Answers P (m w) (k.at w h) }

  module _ {A B : Type 0} {Q : A → Db → Type 0} {R : B → Db → Type 0} where
    pub Ensures-bind :
        (m : M A) (f : A → M B)
        → Ensures P m Q
        → ((a : A) → Ensures (Q a) (f a) R)
        → Ensures P (m >>= f) R
    unfolding ◌>>=◌
    Ensures-bind m f h k = record { at = λ w p. proceed-Answers (m w) f (h.at w p) k }

-- A result with a stronger statement of it.
Answers-map :
    {A : Type 0} {Q R : A → Db → Type 0} (r : Result A × World)
    → ((a : A) (db : Db) → Q a db → R a db)
    → Answers Q r
    → Answers R r
Answers-map (ok a, w) f h = f a w.db h
Answers-map (err _, w) f h = h

module _ {A : Type 0} {P : Db → Type 0} {m : M A} {R : A → Db → Type 0} where
  pub Ensures-map :
      {P' : Db → Type 0} {Q : A → Db → Type 0}
      → ((db : Db) → P db → P' db)
      → ((a : A) (db : Db) → Q a db → R a db)
      → Ensures P' m Q
      → Ensures P m R
  Ensures-map g f e = record { at = λ w h. Answers-map (m w) f (e.at w (g w.db h)) }

  -- What does not depend on the tables stands in front.
  pub Ensures-given : {C : Type 0} → (C → Ensures P m R) → Ensures (λ db. C × P db) m R
  Ensures-given f = record { at = λ w (c, h). (f c).at w h }
