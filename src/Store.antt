-- ===== src/Store.antt =====
-- The tables of migrations/sqlite/001_init.sql, and the world that a call runs in: the
-- tables, the driver's failures to come, the clock and the identifiers that uuid.New() will draw.
pub mod Monad
pub mod Action
pub mod Keeps
pub mod Transactions
pub mod Ensures
use waitinglist.Prelude.{ℕ, String, Bool, List}
use waitinglist.Prelude.Int.{ℤ}
use waitinglist.Model.{Time, UserEntity}
use waitinglist.Notifier.Message.{Message}

pub record WaitingRow : Type 0 where
  pub id : String
  pub user_id : String
  pub created_at : Time
  pub weight : ℤ
  pub project_slug : String

pub record SchedulerRow : Type 0 where
  pub key : String
  pub value : Time
  pub project_slug : String

pub record Db : Type 0 where
  pub user_entity : List UserEntity
  pub waiting_list : List WaitingRow
  pub scheduler_state : List SchedulerRow

-- `clock n` is the n-th reading of the clock, `uuids n` the n-th identifier. `faults` says of each
-- coming answer of the driver, or of the mail server, whether it is an error; behind its end none is.
-- `outbox` is what has been handed to the mail server, oldest first.
pub record World : Type 0 where
  pub db : Db
  pub open db use *
  pub faults : List Bool
  pub clock : ℕ → Time
  pub ticks : ℕ
  pub uuids : ℕ → String
  pub drawn : ℕ
  pub outbox : List Message
