-- ===== src/Sqlite/Waiting.antt =====
-- internal/repository/sqlite/waitinglist.go: the waiting list repository.
pub mod Joins
pub mod Reads
pub mod Weights
pub mod Pages
use waitinglist.Prelude.{
  ℕ, ◌+◌, ◌-◌, ◌*◌, String, Bool, true, false, ◌&&◌, ◌||◌, Option, none, some, List, [], ◌∷◌, ◌++◌,
  leb, ltb, ◌==◌, if◌then◌else◌, any, keep, length, not,
}
use waitinglist.Prelude.Int.{ℤ, pos, negsuc}
use waitinglist.Prelude.Order.{order_by}
use waitinglist.Prelude.Text.{str_eq}
use waitinglist.Model.{
  Time, ok, err, failed, already_on_waiting_list, waiting_list_foreign_key,
  waiting_list_entry_not_found, UserEntity, WaitingListEntry, WaitingListAdminRow,
}
use waitinglist.Model.Clock.{day, hour, whole_seconds, zero_time}
use waitinglist.Store.{WaitingRow}
use waitinglist.Store.Monad.{M, pure, raise, ◌>>=◌, ◌>>◌, driver, get_db, sql_now, new_uuid}
use waitinglist.Sqlite.Rows.{is_in, limit_rows, offset_rows, text_le}
use waitinglist.Sqlite.Users.{has_id}
use waitinglist.Sqlite.Users.Lists.{in_project, matches_email}

-- the leap year 0, which `datetime` writes and `timeScanner` reads, before Go's zero time
abbrev pub year_zero : ℕ
year_zero = 366 * day

since_year_zero : ℕ → ℕ → Option ℕ
since_year_zero back t = if leb back t then some (t - back) else none

-- The generated column datetime(created_at, '-' || (weight * 3600) || ' seconds'), as the time since
-- the year 0. Of a negative weight the modifier begins with two signs, which is none that `datetime`
-- reads: it gives NULL. Before the year 0 it gives NULL or a text with a sign, which comes before the
-- digits of the others and which `timeScanner` refuses like NULL.
unfoldable pub weighted_instant : WaitingRow → Option ℕ
unfolding since_year_zero
weighted_instant r = elim r.weight [
  | pos n ↦ since_year_zero (n * hour) (r.created_at + year_zero)
  | negsuc _ ↦ none
]

after_year_zero : Option ℕ → Option Time
after_year_zero none = none
after_year_zero (some t) = some (t - year_zero)

-- The column as it is scanned; an instant of the year 0 counts as Go's zero time.
unfoldable pub weighted_created_at : WaitingRow → Option Time
unfolding weighted_instant after_year_zero
weighted_created_at r = after_year_zero (weighted_instant r)

pub weight_le : Option ℕ → Option ℕ → Bool
weight_le none _ = true
weight_le (some a) none = false
weight_le (some a) (some b) = leb a b

-- ORDER BY weighted_created_at ASC; NULL comes first
unfoldable pub weighted_earlier : WaitingRow → WaitingRow → Bool
unfolding weight_le weighted_instant
weighted_earlier r s = weight_le (weighted_instant r) (weighted_instant s)

abbrev pub has_entry_id : String → WaitingRow → Bool
has_entry_id id r = str_eq r.id id

abbrev pub is_of_user : String → WaitingRow → Bool
is_of_user user_id r = str_eq r.user_id user_id

abbrev pub new_waiting_row : String → String → String → Time → WaitingRow
new_waiting_row id slug user_id now = record {
  id = id;
  user_id = user_id;
  created_at = now;
  weight = pos 0;
  project_slug = slug;
}

-- INSERT INTO waiting_list: the primary key, UNIQUE (user_id), and the reference to user_entity.
unfoldable pub insert_waiting : String → String → String → Time → M (Unit {0})
insert_waiting id slug user_id now w =
    if any (has_entry_id id) w.waiting_list
    then (err failed, w)
    else if any (is_of_user user_id) w.waiting_list
    then (err already_on_waiting_list, w)
    else if not (any (has_id user_id) w.user_entity)
    then (err waiting_list_foreign_key, w)
    else (
      ok tt,
      record w {
        db = record w.db {
          waiting_list = w.waiting_list ++ new_waiting_row id slug user_id now ∷ [];
        };
      },
    )

-- `Add`: RETURNING leaves out weighted_created_at, so that field keeps Go's zero time.
unfoldable pub add : String → String → M WaitingListEntry
unfolding insert_waiting driver
add slug user_id = do
  id ← new_uuid
  driver
  now ← sql_now
  insert_waiting id slug user_id now
  pure (record {
    id = id;
    project_slug = slug;
    user_id = user_id;
    created_at = now;
    weighted_created_at = zero_time;
  })

entry_of : WaitingRow → Option Time → Option WaitingListEntry
entry_of r none = none
entry_of r (some t) = some (record {
  id = r.id;
  project_slug = r.project_slug;
  user_id = r.user_id;
  created_at = r.created_at;
  weighted_created_at = t;
})

-- The scan of one row: `timeScanner` refuses NULL.
unfoldable pub scan_entry : WaitingRow → Option WaitingListEntry
unfolding entry_of weighted_created_at
scan_entry r = entry_of r (weighted_created_at r)

scanned : Option WaitingListEntry → M (List WaitingListEntry) → M (List WaitingListEntry)
scanned none later = raise failed
scanned (some e) later = do rest ← later; pure (e ∷ rest)

-- The loop over the rows: the first row that cannot be scanned ends it with an error.
unfoldable pub scan_entries : List WaitingRow → M (List WaitingListEntry)
unfolding scanned scan_entry
scan_entries [] = pure []
scan_entries (r ∷ rows) = scanned (scan_entry r) (scan_entries rows)

abbrev pub or_default : ℤ → Option ℤ → ℤ
or_default d none = d
or_default d (some n) = n

-- The rows of the SELECT, in order, before LIMIT and OFFSET.
unfoldable pub project_rows : String → List WaitingRow → List WaitingRow
unfolding weighted_earlier
project_rows slug rows =
    order_by weighted_earlier (keep (λ (r : WaitingRow). str_eq r.project_slug slug) rows)

-- `GetWithOffsetLimit`
unfoldable pub get_with_offset_limit : String → Option ℤ → Option ℤ → M (List WaitingListEntry)
unfolding scan_entries project_rows driver
get_with_offset_limit slug offset limit = do
  driver
  db ← get_db
  let rows = project_rows slug db.waiting_list
  scan_entries (
      limit_rows (or_default (pos 2147483647) limit) (offset_rows (or_default (pos 0) offset) rows))

-- `GetAll`
unfoldable pub get_all : String → M (List WaitingListEntry)
unfolding get_with_offset_limit
get_all slug = get_with_offset_limit slug none none

-- DELETE FROM waiting_list WHERE …, and the number of rows that it matched
unfoldable pub delete_waiting : (WaitingRow → Bool) → M ℕ
delete_waiting p w = (
  ok (length (keep p w.waiting_list)),
  record w { db = record w.db { waiting_list = keep (λ r. not (p r)) w.waiting_list } },
)

-- `DeleteByIDsTx`
unfoldable pub delete_by_ids_tx : List String → M (Unit {0})
unfolding delete_waiting driver
delete_by_ids_tx [] = pure tt
delete_by_ids_tx (i ∷ ids) = do driver; delete_waiting (λ r. is_in (i ∷ ids) r.id); pure tt

-- `DeleteByIDTx`
unfoldable pub delete_by_id_tx : String → M (Unit {0})
unfolding delete_waiting driver
delete_by_id_tx id = do
  driver
  n ← delete_waiting (has_entry_id id)
  driver
  if n == 0 then raise waiting_list_entry_not_found else pure tt

-- `DeleteByUserIDTx`
unfoldable pub delete_by_user_id_tx : String → M (Unit {0})
unfolding delete_waiting driver
delete_by_user_id_tx user_id = do driver; delete_waiting (is_of_user user_id); pure tt
