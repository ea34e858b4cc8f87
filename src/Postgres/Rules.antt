-- ===== src/Postgres/Rules.antt =====
-- Rules for the steps that only these repositories have: a value of a column's type.
use waitinglist.Prelude.{◌≡◌, refl, Option, none, some, String, List, [], ◌∷◌}
use waitinglist.Model.{Error, Result, ok, err, failed}
use waitinglist.Store.{Db, World}
use waitinglist.Store.Monad.{M, pure, ◌>>=◌, proceed}
use waitinglist.Store.Keeps.{Keeps, keeps_rules, Keeps-bind, Keeps-pure}
use waitinglist.Store.Ensures.{Ensures, Ensures-bind, Ensures-pure}
use waitinglist.Repository.Keys.{KeyReader, read_all}
use waitinglist.Postgres.Server.{typed, typed_all, typed_null}

module _ {P : Db → Type 0} {A : Type 0} where
  pub typed-Keeps : (o : Option A) → Keeps P (typed o)
  unfolding typed
  typed-Keeps none = search keeps_rules
  typed-Keeps (some a) = search keeps_rules

  module _ {B : Type 0} where
    -- What follows a value of its type may use which value it is.
    pub Keeps-typed :
        (o : Option A) (f : A → M B)
        → ((a : A) → o ≡ some a → Keeps P (f a))
        → Keeps P (typed o >>= f)
    unfolding ◌>>=◌ typed
    Keeps-typed none f k = record { at = λ w h. h }
    Keeps-typed (some a) f k = record { at = λ w h. (k a refl).at w h }

    pub Ensures-typed :
        {Q : B → Db → Type 0} (o : Option A) (f : A → M B)
        → ((a : A) → o ≡ some a → Ensures P (f a) Q)
        → Ensures P (typed o >>= f) Q
    unfolding ◌>>=◌ typed
    Ensures-typed none f k = record { at = λ w h. tt }
    Ensures-typed (some a) f k = record { at = λ w h. (k a refl).at w h }

module _ {P : Db → Type 0} (read : KeyReader) where
  pub typed_all-Keeps : (ts : List String) → Keeps P (typed_all read ts)
  unfolding typed_all
  typed_all-Keeps [] = search keeps_rules
  typed_all-Keeps (t ∷ ts) =
      Keeps-bind _ _ (typed-Keeps (read t))
        λ a. Keeps-bind _ _ (typed_all-Keeps ts) λ rest. Keeps-pure _

  pub typed_null-Keeps : (o : Option String) → Keeps P (typed_null read o)
  unfolding typed_null
  typed_null-Keeps none = search keeps_rules
  typed_null-Keeps (some t) = search (keeps_rules, typed-Keeps)

  -- A `uuid[]` has the keys of its texts.
  pub typed_all-Ensures :
      (ts : List String)
      → Ensures P (typed_all read ts) (λ ks db. (read_all read ts ≡ some ks) × P db)
  unfolding typed_all
  typed_all-Ensures [] = Ensures-pure [] λ db h. (refl, h)
  typed_all-Ensures (t ∷ ts) = Ensures-typed (read t) _ λ a is_a.
      Ensures-bind _ _ (typed_all-Ensures ts)
        λ ks. Ensures-pure (a ∷ ks) λ db (rest, h). (rw (is_a, rest) refl, h)

-- What holds of a failure, and of what follows each value of its type.
pub at_typed :
    {A B : Type 0} (Q : Result B × World → Type 0) (o : Option A) (f : A → M B) (w : World)
    → Q (err failed, w)
    → ((a : A) → o ≡ some a → Q (f a w))
    → Q ((typed o >>= f) w)
unfolding ◌>>=◌ typed
at_typed Q none f w e k = e
at_typed Q (some a) f w e k = k a refl

pub at_typed_null :
    {B : Type 0} (Q : Result B × World → Type 0) (read : KeyReader) (o : Option String)
    (f : Option String → M B) (w : World)
    → Q (err failed, w)
    → ((o : Option String) → Q (f o w))
    → Q ((typed_null read o >>= f) w)
unfolding ◌>>=◌ typed_null
at_typed_null Q read none f w e k = k none
at_typed_null Q read (some t) f w e k = at_typed_again (read t)
  where
    at_typed_again :
        (o : Option String)
        → Q (
            proceed
              (proceed (typed o w).0 (λ a. pure (some a)) (typed o w).1).0
              f
              (proceed (typed o w).0 (λ a. pure (some a)) (typed o w).1).1)
    at_typed_again none = e
    at_typed_again (some a) = k (some a)

pub at_proceed :
    {A B : Type 0} (Q : Result B × World → Type 0) (r : Result A) (f : A → M B) (w : World)
    → ((e : Error) → Q (err e, w))
    → ((a : A) → Q (f a w))
    → Q (proceed r f w)
at_proceed Q (ok a) f w e k = k a
at_proceed Q (err x) f w e k = e x
