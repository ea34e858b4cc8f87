-- ===== src/Repository/Agreement.antt =====
-- internal/repository/repotest: the two databases answer the same page, as the parity suites expect it.
use waitinglist.Prelude.{◌≡◌, ◌*◌, ◌≤◌, ℕ, String, false, List, In, map}
use waitinglist.Prelude.Int.{ℤ, pos}
use waitinglist.Model.Clock.{hour}
use waitinglist.Model.{Result, WaitingListEntry}
use waitinglist.Store.{World, WaitingRow}
use waitinglist.Store.Monad.{◌>>=◌, proceed, pure, get_db}
use waitinglist.Sqlite.Rows.{limit_rows, offset_rows}
use waitinglist.Sqlite.Waiting as OnSqlite
use waitinglist.Sqlite.Waiting.{scan_entries}
use waitinglist.Postgres.Waiting as OnPostgres
use waitinglist.Postgres.Server.{Server, IsServer}
use waitinglist.Postgres.Users.Lists.{is_negative, check_page, paged}
use waitinglist.Repository.Read.{rows_of}

-- a weight that SQLite can compute with, of hours that lie within Go's time
abbrev pub IsWeighted : WaitingRow → Type 0
IsWeighted r = (n : ℕ) × (r.weight ≡ pos n) × (n * hour ≤ r.created_at)

-- No two rows of the project have the same weighted time.
abbrev pub AreDistinct : String → List WaitingRow → Type 0
AreDistinct slug rows =
    (a b : WaitingRow)
    → In a (rows_of slug rows)
    → In b (rows_of slug rows)
    → OnPostgres.weighted_created_at a ≡ OnPostgres.weighted_created_at b
    → a ≡ b

-- the page of the SELECT, after the driver's answer
module _ (s : Server) (law : IsServer s) (slug : String) (limit offset : ℤ)
    (limited : is_negative limit ≡ false) (begun : is_negative offset ≡ false) where
  abbrev page_on_postgres : Result (Unit {0}) → World → Result (List WaitingListEntry)
  page_on_postgres r w =
      (proceed r
        (λ _. check_page limit offset >>= λ _. get_db >>= λ db. pure (
          map OnPostgres.entry_of
            (paged limit offset (OnPostgres.project_rows s slug db.waiting_list))))
        w).0

  abbrev page_on_sqlite : Result (Unit {0}) → World → Result (List WaitingListEntry)
  page_on_sqlite r w =
      (proceed r
        (λ _. get_db >>= λ db.
          scan_entries
            (limit_rows limit (offset_rows offset (OnSqlite.project_rows slug db.waiting_list))))
        w).0
