-- ===== src/Repository/Read.antt =====
-- What the entries of a page come from, whatever the database.
use waitinglist.Prelude.{◌≡◌, Bool, Option, some, List, In, keep, String}
use waitinglist.Prelude.Text.{str_eq}
use waitinglist.Model.{Time, Result, ok, err, WaitingListEntry}
use waitinglist.Store.{WaitingRow}

-- the rows of a project
abbrev pub is_of_project : String → WaitingRow → Bool
is_of_project slug r = str_eq r.project_slug slug

abbrev pub rows_of : String → List WaitingRow → List WaitingRow
rows_of slug rows = keep (is_of_project slug) rows

-- What an entry that was read comes from: a row of the list, with its keys. `weighted` is the
-- generated column.
pub record Read (weighted : WaitingRow → Option Time) (rows : List WaitingRow)
    (e : WaitingListEntry) : Type 0 where
  pub row : WaitingRow
  pub known : In row rows
  pub id : row.id ≡ e.id
  pub user_id : row.user_id ≡ e.user_id
  pub project_slug : row.project_slug ≡ e.project_slug
  pub weighted_time : weighted row ≡ some e.weighted_created_at

abbrev pub AllRead :
    (WaitingRow → Option Time) → List WaitingRow → Result (List WaitingListEntry) → Type 0
AllRead weighted rows (ok es) = (e : WaitingListEntry) → In e es → Read weighted rows e
AllRead weighted rows (err _) = Unit

pub Read-mono :
    {weighted : WaitingRow → Option Time} {rows more : List WaitingRow} {e : WaitingListEntry}
    → ((r : WaitingRow) → In r rows → In r more)
    → Read weighted rows e
    → Read weighted more e
Read-mono sub r = record {
  row = r.row;
  known = sub r.row r.known;
  id = r.id;
  user_id = r.user_id;
  project_slug = r.project_slug;
  weighted_time = r.weighted_time;
}
