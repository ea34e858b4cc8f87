-- ===== src/Sqlite/Scheduler/Success.antt =====
-- The scheduler's state: what `GetLastSuccess` answers, and what `UpdateLastSuccess` writes.
use waitinglist.Prelude.{refl, ap, subst, ◌∙◌, ℕ, String, find_first, arith}
use waitinglist.Model.{Result, ok, err}
use waitinglist.Store.{Db, World}
use waitinglist.Store.Monad.{◌>>=◌, driver, proceed, pure, get_db, sql_now}
use waitinglist.Store.Keeps.{driver-db, driver-clock}
use waitinglist.Sqlite.Scheduler.{
  has_key, get_last_success, update_last_success, value_or_zero, put_value,
}
use waitinglist.Repository.Contract.{LastRead, Written}

pub read_last :
    (slug name : String) (r : Result (Unit {0})) (w : World)
    → LastRead slug name w (
        proceed r
          (λ _. get_db >>= λ db.
            pure (value_or_zero (find_first (has_key slug name) db.scheduler_state)))
          w)
unfolding ◌>>=◌
read_last slug name (ok _) w = record { db = refl; clock = refl; stored = λ t e. ground arith }
read_last slug name (err _) w = record { db = refl; clock = refl; stored = λ t e. absurd (cc) }

-- What is read behind an answer of the driver is read of the tables before it.
pub LastRead-driver :
    (slug name : String) (w : World) (r : Result ℕ × World)
    → LastRead slug name (driver w).1 r
    → LastRead slug name w r
LastRead-driver slug name w r l = record {
  db = l.db ∙ driver-db w;
  clock = l.clock ∙ driver-clock w;
  stored = λ t e.
      l.stored t e
      ∙ ap (λ (d : Db). value_or_zero (find_first (has_key slug name) d.scheduler_state))
          (driver-db w);
}

pub get_last_success-LastRead :
    (slug name : String) (w : World) → LastRead slug name w (get_last_success slug name w)
unfolding get_last_success ◌>>=◌
get_last_success-LastRead slug name w =
    LastRead-driver slug name w (get_last_success slug name w)
      (read_last slug name (driver w).0 (driver w).1)

write_last :
    (slug name : String) (r : Result (Unit {0})) (w : World)
    → Written w.db slug name (proceed r (λ _. sql_now >>= put_value slug name) w)
unfolding ◌>>=◌ put_value
write_last slug name (ok _) w = (_, refl)
write_last slug name (err _) w = refl

pub update_last_success-Written :
    (slug name : String) (w : World) → Written w.db slug name (update_last_success slug name w)
unfolding update_last_success ◌>>=◌
update_last_success-Written slug name w =
    subst (λ d. Written d slug name (update_last_success slug name w)) (driver-db w)
      (write_last slug name (driver w).0 (driver w).1)
