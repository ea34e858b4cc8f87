-- ===== src/Store/Keeps.antt =====
-- Properties of the tables that an action keeps, one rule for each way to build an action.
use waitinglist.Prelude.{◌≡◌, refl, Bool, true, false, List, [], ◌∷◌, if◌then◌else◌}
use waitinglist.Model.{Error, Result, ok, err}
use waitinglist.Store.{Db, World}
use waitinglist.Store.Monad.{
  M, pure, raise, ◌>>=◌, proceed, driver, answer, get_db, time_now, sql_now, new_uuid,
}
use waitinglist.Store.Action
use waitinglist.Store.Action.{reply}

-- `m` keeps the property `P` of the tables, whatever it answers.
pub record Keeps {A : Type 0} (P : Db → Type 0) (m : World → A × World) : Type 0 where
  pub at : (w : World) → P w.db → P (m w).1.db

-- One answer of the driver changes no table.
answer-db : (fs : List Bool) (w : World) → (answer fs w).1.db ≡ w.db
unfolding answer
answer-db [] w = refl
answer-db (true ∷ fs) w = refl
answer-db (false ∷ fs) w = refl

answer-clock : (fs : List Bool) (w : World) → (answer fs w).1.clock ≡ w.clock
unfolding answer
answer-clock [] w = refl
answer-clock (true ∷ fs) w = refl
answer-clock (false ∷ fs) w = refl

answer-ticks : (fs : List Bool) (w : World) → (answer fs w).1.ticks ≡ w.ticks
unfolding answer
answer-ticks [] w = refl
answer-ticks (true ∷ fs) w = refl
answer-ticks (false ∷ fs) w = refl

-- Nor does it read the clock.
pub driver-clock : (w : World) → (driver w).1.clock ≡ w.clock
unfolding driver
driver-clock w = answer-clock w.faults w

answer-draw :
    (fs : List Bool) (w : World) → (answer fs w).1.uuids (answer fs w).1.drawn ≡ w.uuids w.drawn
unfolding answer
answer-draw [] w = refl
answer-draw (true ∷ fs) w = refl
answer-draw (false ∷ fs) w = refl

-- Nor does it draw.
pub driver-draw : (w : World) → (driver w).1.uuids (driver w).1.drawn ≡ w.uuids w.drawn
unfolding driver
driver-draw w = answer-draw w.faults w

pub driver-ticks : (w : World) → (driver w).1.ticks ≡ w.ticks
unfolding driver
driver-ticks w = answer-ticks w.faults w

pub driver-db : (w : World) → (driver w).1.db ≡ w.db
unfolding driver
driver-db w = answer-db w.faults w

module _ {P : Db → Type 0} where
  pub Keeps-driver : Keeps P driver
  Keeps-driver = record { at = λ w h. rw driver-db h }

  pub Keeps-get_db : Keeps P get_db
  unfolding get_db
  Keeps-get_db = record { at = λ w h. h }

  pub Keeps-time_now : Keeps P time_now
  unfolding time_now
  Keeps-time_now = record { at = λ w h. h }

  pub Keeps-sql_now : Keeps P sql_now
  unfolding sql_now
  Keeps-sql_now = record { at = λ w h. h }

  pub Keeps-new_uuid : Keeps P new_uuid
  unfolding new_uuid
  Keeps-new_uuid = record { at = λ w h. h }

  module _ {A : Type 0} where
    pub Keeps-pure : (a : A) → Keeps P (pure a)
    unfolding pure
    Keeps-pure a = record { at = λ w h. h }

    pub Keeps-raise : (e : Error) → Keeps P (raise {A = A} e)
    unfolding raise
    Keeps-raise e = record { at = λ w h. h }

    pub Keeps-reply : (a : A) → Keeps P (reply a)
    unfolding reply
    Keeps-reply a = record { at = λ w h. h }

    pub Keeps-if :
        (b : Bool) (m n : World → A × World) → Keeps P m → Keeps P n → Keeps P (if b then m else n)
    Keeps-if true m n km kn = km
    Keeps-if false m n km kn = kn

  module _ {A B : Type 0} where
    -- a step, and what follows at its answer
    pub Keeps-then :
        (m : World → A × World) (f : A → World → B × World)
        → Keeps P m
        → ((a : A) → Keeps P (f a))
        → Keeps P (Action.◌>>=◌ m f)
    unfolding Action.◌>>=◌
    Keeps-then m f km kf = record { at = λ w h. (kf (m w).0).at (m w).1 (km.at w h) }

    Keeps-proceed : (r : Result A) (f : A → M B) → ((a : A) → Keeps P (f a)) → Keeps P (proceed r f)
    Keeps-proceed (ok a) f kf = kf a
    Keeps-proceed (err e) f kf = record { at = λ w h. h }

    pub Keeps-bind :
        (m : M A) (f : A → M B) → Keeps P m → ((a : A) → Keeps P (f a)) → Keeps P (m >>= f)
    unfolding ◌>>=◌
    Keeps-bind m f km kf = record {
      at = λ w h. (Keeps-proceed (m w).0 f kf).at (m w).1 (km.at w h);
    }

pub ruleset keeps_rules = (
  Keeps-driver, Keeps-get_db, Keeps-time_now, Keeps-sql_now, Keeps-new_uuid, Keeps-pure,
  Keeps-raise, Keeps-if, Keeps-bind,
)

-- the rules of handlers
pub ruleset action_rules = (keeps_rules, Keeps-reply, Keeps-then)
