-- ===== src/Sqlite/Scheduler.antt =====
-- internal/repository/sqlite/scheduler.go: when a periodic task last succeeded. A stored text is
-- the instant that it was written for.
pub mod Stamps
pub mod Success
use waitinglist.Prelude.{
  String, Bool, ◌&&◌, Option, none, some, List, [], ◌∷◌, if◌then◌else◌, find_first,
}
use waitinglist.Prelude.Text.{str_eq}
use waitinglist.Model.{Time, ok}
use waitinglist.Model.Clock.{zero_time}
use waitinglist.Store.{SchedulerRow}
use waitinglist.Store.Monad.{M, pure, ◌>>=◌, ◌>>◌, driver, get_db, sql_now}

abbrev pub has_key : String → String → SchedulerRow → Bool
has_key slug key r = str_eq r.project_slug slug && str_eq r.key key

abbrev pub value_or_zero : Option SchedulerRow → Time
value_or_zero none = zero_time
value_or_zero (some r) = r.value

-- `GetLastSuccess`
unfoldable pub get_last_success : String → String → M Time
unfolding driver
get_last_success slug key = do
  driver
  db ← get_db
  pure (value_or_zero (find_first (has_key slug key) db.scheduler_state))

-- INSERT … ON CONFLICT (project_slug, key) DO UPDATE SET value = …
pub upsert : String → String → Time → List SchedulerRow → List SchedulerRow
upsert slug key now [] = record { key = key; value = now; project_slug = slug } ∷ []
upsert slug key now (r ∷ rows) =
    if has_key slug key r then record r { value = now } ∷ rows else r ∷ upsert slug key now rows

unfoldable pub put_value : String → String → Time → M (Unit {0})
unfolding upsert
put_value slug key now w = (
  ok tt,
  record w { db = record w.db { scheduler_state = upsert slug key now w.scheduler_state } },
)

-- `UpdateLastSuccess`
unfoldable pub update_last_success : String → String → M (Unit {0})
unfolding put_value driver
update_last_success slug key = do driver; now ← sql_now; put_value slug key now
