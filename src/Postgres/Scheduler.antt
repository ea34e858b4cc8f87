-- ===== src/Postgres/Scheduler.antt =====
-- internal/repository/postgres/scheduler.go: when a periodic task last succeeded.
use waitinglist.Prelude.{String, find_first}
use waitinglist.Model.{Time}
use waitinglist.Store.Monad.{M, pure, ◌>>=◌, ◌>>◌, driver, get_db}
use waitinglist.Sqlite.Scheduler.{has_key, value_or_zero, put_value}

-- `GetLastSuccess`
unfoldable pub get_last_success : String → String → M Time
unfolding driver
get_last_success slug key = do
  driver
  db ← get_db
  pure (value_or_zero (find_first (has_key slug key) db.scheduler_state))

-- `UpdateLastSuccess`: both keys of the program fit their varchar(100).
unfoldable pub update_last_success : Time → String → String → M (Unit {0})
unfolding put_value driver
update_last_success now slug key = do driver; put_value slug key now
