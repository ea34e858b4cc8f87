-- ===== src/Postgres/Pages.antt =====
-- internal/repository/postgres/waitinglist.go, `GetWithOffsetLimit`: which entries are handed out, and in
-- which order, however the server meets the rows.
use waitinglist.Prelude.{
  ◌≡◌, refl, subst, true, false, ℕ, suc, ◌+◌, ◌*◌, ◌≤◌, ◌<◌, ◌⊎◌, String, Bool, Option, List, [],
  ◌∷◌, map, arith, ◌||◌, if◌then◌else◌,
}
use waitinglist.Prelude.Int.{ℤ, pos, negsuc}
use waitinglist.Prelude.Order.{IsPreorder}
use waitinglist.Prelude.Selected.{IsAnswered, order_by-IsAnswered}
use waitinglist.Prelude.Text.{str_eq}
use waitinglist.Model.{Time, Result, ok, err, failed, WaitingListEntry}
use waitinglist.Model.Clock.{hour}
use waitinglist.Store.{Db, WaitingRow, World}
use waitinglist.Store.Keeps.{driver-db}
use waitinglist.Store.Monad.{◌>>=◌, proceed, driver, pure, raise, get_db}
use waitinglist.Sqlite.Rows.{limit_rows, offset_rows}
use waitinglist.Sqlite.Waiting.{or_default}
use waitinglist.Sqlite.Waiting.Pages.{is_of_project-Decides}
use waitinglist.Postgres.Server.{Server, IsServer}
use waitinglist.Postgres.Users.Lists.{is_negative, check_page, paged}
use waitinglist.Postgres.Waiting.{
  weighted_instant, weighted_created_at, weighted_earlier, project_rows, entry_of,
  get_with_offset_limit,
}

pub weighted_earlier-IsPreorder : IsPreorder weighted_earlier
unfolding weighted_earlier
weighted_earlier-IsPreorder = record {
  total = λ r s h. ground arith;
  trans = λ r s t h k. ground arith;
}

-- A row with one weight and time of creation comes before, or ties with, one with another: an hour
-- earlier for each hour of weight, and an hour later for each that the weight is below zero.
abbrev pub PrecedesBy : ℤ → ℕ → ℤ → ℕ → Type 0
PrecedesBy (pos n) a (pos m) b = a + m * hour ≤ b + n * hour
PrecedesBy (pos n) a (negsuc m) b = a ≤ b + n * hour + suc m * hour
PrecedesBy (negsuc n) a (pos m) b = a + suc n * hour + m * hour ≤ b
PrecedesBy (negsuc n) a (negsuc m) b = a + suc n * hour ≤ b + suc m * hour

abbrev pub Precedes : WaitingRow → WaitingRow → Type 0
Precedes r s = PrecedesBy r.weight r.created_at s.weight s.created_at

abbrev weighing : ℤ → ℕ → WaitingRow
weighing v a = record { id = ""; user_id = ""; created_at = a; weight = v; project_slug = "" }

earlier-PrecedesBy :
    (v : ℤ) (a : ℕ) (w : ℤ) (b : ℕ)
    → weighted_earlier (weighing v a) (weighing w b) ≡ true
    → PrecedesBy v a w b
unfolding weighted_earlier weighted_instant
earlier-PrecedesBy (pos n) a (pos m) b h = ground arith
earlier-PrecedesBy (pos n) a (negsuc m) b h = ground arith
earlier-PrecedesBy (negsuc n) a (pos m) b h = ground arith
earlier-PrecedesBy (negsuc n) a (negsuc m) b h = ground arith

weighted_earlier-Precedes : (r s : WaitingRow) → weighted_earlier r s ≡ true → Precedes r s
unfolding weighted_earlier weighted_instant
weighted_earlier-Precedes r s h = earlier-PrecedesBy r.weight r.created_at s.weight s.created_at h

-- The weighted time of an entry, or Go's zero time for an earlier instant.
abbrev pub IsShiftedTime : ℤ → ℕ → Time → Type 0
IsShiftedTime (pos n) a t = (t + n * hour ≡ a) ⊎ ((a < n * hour) × (t ≡ 0))
IsShiftedTime (negsuc n) a t = t ≡ a + suc n * hour

-- An entry has the columns of its row.
pub record IsScanOf (r : WaitingRow) (e : WaitingListEntry) : Type 0 where
  pub id : e.id ≡ r.id
  pub user_id : e.user_id ≡ r.user_id
  pub project_slug : e.project_slug ≡ r.project_slug
  pub created_at : e.created_at ≡ r.created_at
  pub weighted : IsShiftedTime r.weight r.created_at e.weighted_created_at

-- row by row
abbrev pub AreScans : List WaitingRow → List WaitingListEntry → Type 0
AreScans [] [] = Unit
AreScans [] (e ∷ es) = ⊥
AreScans (r ∷ rows) [] = ⊥
AreScans (r ∷ rows) (e ∷ es) = IsScanOf r e × AreScans rows es

shifted : (v : ℤ) (a : ℕ) → IsShiftedTime v a (weighted_created_at (weighing v a))
unfolding weighted_created_at weighted_instant
shifted (pos n) a = ground arith
shifted (negsuc n) a = refl

entries-AreScans : (rows : List WaitingRow) → AreScans rows (map entry_of rows)
unfolding entry_of weighted_created_at weighted_instant
entries-AreScans [] = tt
entries-AreScans (r ∷ rows) = (
  record {
    id = refl;
    user_id = refl;
    project_slug = refl;
    created_at = refl;
    weighted = shifted r.weight r.created_at;
  },
  entries-AreScans rows,
)

-- The entries are a page of rows of the table, row by row: of just those of the project, sorted by their
-- weighted time.
abbrev pub IsBatch : Db → String → ℤ → ℤ → Result (List WaitingListEntry) → Type 0
IsBatch db slug offset limit (err _) = Unit
IsBatch db slug offset limit (ok es) =
    (rows : List WaitingRow) × IsAnswered (λ (r : WaitingRow). r.project_slug ≡ slug) Precedes
      db.waiting_list rows
    × AreScans (limit_rows limit (offset_rows offset rows)) es

module _ (s : Server) (law : IsServer s) (slug : String) where
  project_rows-IsAnswered :
      (rows : List WaitingRow)
      → IsAnswered
          (λ (r : WaitingRow). r.project_slug ≡ slug)
          Precedes
          rows
          (project_rows s slug rows)
  unfolding project_rows
  project_rows-IsAnswered rows =
      order_by-IsAnswered (λ (r : WaitingRow). str_eq r.project_slug slug) weighted_earlier
        (law.waiting_once rows) (is_of_project-Decides slug) weighted_earlier-IsPreorder
        weighted_earlier-Precedes

  module _ (offset limit : ℤ) where
    page-IsBatch :
        (db : Db)
        → IsBatch db slug offset limit
            (ok (map entry_of (paged limit offset (project_rows s slug db.waiting_list))))
    unfolding paged
    page-IsBatch db =
        let rows = project_rows s slug db.waiting_list in
        (
          rows,
          project_rows-IsAnswered db.waiting_list,
          entries-AreScans (limit_rows limit (offset_rows offset rows)),
        )

    checked-IsBatch :
        (negative : Bool) (w : World)
        → IsBatch w.db slug offset limit
            (((if negative then raise failed else pure tt) >>= λ _. get_db >>= λ db.
                pure (map entry_of (paged limit offset (project_rows s slug db.waiting_list))))
              w).0
    unfolding ◌>>=◌
    checked-IsBatch true w = tt
    checked-IsBatch false w = page-IsBatch w.db

    read-IsBatch :
        (r : Result (Unit {0})) (w : World)
        → IsBatch w.db slug offset limit
            (proceed r
              (λ _. check_page limit offset >>= λ _. get_db >>= λ db.
                pure (map entry_of (paged limit offset (project_rows s slug db.waiting_list))))
              w).0
    unfolding check_page
    read-IsBatch (err _) w = tt
    read-IsBatch (ok _) w = checked-IsBatch (is_negative limit || is_negative offset) w

  -- Over a server that scans each row once, where `GetWithOffsetLimit` succeeds on PostgreSQL its entries
  -- are, row by row and column by column, the page from OFFSET on of at most LIMIT of the project's rows,
  -- all of these taken and sorted by the time of creation less the hours of their weight, of either sign.
  pub get_with_offset_limit-IsBatch :
      (offset limit : Option ℤ) (w : World)
      → IsBatch w.db slug
          (or_default (pos 0) offset)
          (or_default (pos 2147483647) limit)
          (get_with_offset_limit s slug offset limit w).0
  unfolding get_with_offset_limit ◌>>=◌
  get_with_offset_limit-IsBatch offset limit w =
      subst
        (λ db.
          IsBatch db slug (or_default (pos 0) offset) (or_default (pos 2147483647) limit)
            (get_with_offset_limit s slug offset limit w).0)
        (driver-db w)
        (unfold ◌>>=◌ in
          read-IsBatch (or_default (pos 0) offset) (or_default (pos 2147483647) limit) (driver w).0
            (driver w).1)
