-- ===== src/Postgres/Waiting.antt =====
-- internal/repository/postgres/waitinglist.go: the waiting list repository. `now` is NOW(), as in
-- Postgres/Users.
pub mod Joins
use waitinglist.Prelude.{
  ℕ, suc, ◌+◌, ◌-◌, ◌*◌, String, Bool, true, false, not, Option, none, List, [], ◌∷◌, ◌++◌, map,
  leb, ◌==◌, if◌then◌else◌, any, keep,
}
use waitinglist.Prelude.Int.{ℤ, pos, negsuc, sub_ℕ, pos_part, ltb_ℤ}
use waitinglist.Prelude.Order.{order_by}
use waitinglist.Prelude.Text.{str_eq}
use waitinglist.Model.{
  Time, Result, ok, err, already_on_waiting_list, waiting_list_foreign_key,
  waiting_list_entry_not_found, WaitingListEntry,
}
use waitinglist.Model.Clock.{hour, zero_time}
use waitinglist.Store.{WaitingRow}
use waitinglist.Store.Monad.{M, pure, raise, ◌>>=◌, ◌>>◌, driver, get_db, new_uuid}
use waitinglist.Sqlite.Rows.{is_in}
use waitinglist.Sqlite.Users.{has_id}
use waitinglist.Sqlite.Waiting.{
  has_entry_id, is_of_user, new_waiting_row, or_default, delete_waiting,
}
use waitinglist.Postgres.Server.{Server, typed, typed_all}
use waitinglist.Postgres.Users.Lists.{check_page, paged}

-- The generated column created_at - '01:00:00'::interval * weight, for a weight of either sign, as the
-- time since Go's zero time, which may be negative.
unfoldable pub weighted_instant : WaitingRow → ℤ
weighted_instant r = elim r.weight [
  | pos n ↦ sub_ℕ r.created_at (n * hour)
  | negsuc n ↦ pos (r.created_at + suc n * hour)
]

-- The column as it is scanned; an instant before Go's zero time counts as the zero time.
unfoldable pub weighted_created_at : WaitingRow → Time
unfolding weighted_instant
weighted_created_at r = pos_part (weighted_instant r)

unfoldable pub weighted_earlier : WaitingRow → WaitingRow → Bool
unfolding weighted_instant
weighted_earlier r s = not (ltb_ℤ (weighted_instant s) (weighted_instant r))

-- INSERT INTO waiting_list: 23505 for both keys, and 23503 for the reference, which is checked last.
unfoldable pub insert_waiting : WaitingRow → M (Unit {0})
insert_waiting row w =
    if any (has_entry_id row.id) w.waiting_list
    then (err already_on_waiting_list, w)
    else if any (is_of_user row.user_id) w.waiting_list
    then (err already_on_waiting_list, w)
    else if not (any (has_id row.user_id) w.user_entity)
    then (err waiting_list_foreign_key, w)
    else (ok tt, record w { db = record w.db { waiting_list = w.waiting_list ++ row ∷ [] } })

unfoldable pub entry_of : WaitingRow → WaitingListEntry
unfolding weighted_created_at
entry_of r = record {
  id = r.id;
  project_slug = r.project_slug;
  user_id = r.user_id;
  created_at = r.created_at;
  weighted_created_at = weighted_created_at r;
}

-- the rows that a DELETE has removed, as `RowsAffected` counts them
unfoldable pub removed : ℕ → M (Unit {0})
unfolding driver
removed n = do driver; if n == 0 then raise waiting_list_entry_not_found else pure tt

module _ (s : Server) where
  -- `Add`: RETURNING leaves out weighted_created_at here too.
  unfoldable pub add : Time → String → String → M WaitingListEntry
  unfolding insert_waiting driver typed
  add now slug user_id = do
    driver
    user_key ← typed (s.uuid user_id)
    drawn ← new_uuid
    id ← typed (s.uuid drawn)
    insert_waiting (new_waiting_row id slug user_key now)
    pure (record {
      id = id;
      project_slug = slug;
      user_id = user_key;
      created_at = now;
      weighted_created_at = zero_time;
    })

  -- The rows of the SELECT, in order, before LIMIT and OFFSET.
  unfoldable pub project_rows : String → List WaitingRow → List WaitingRow
  unfolding weighted_earlier
  project_rows slug rows =
      order_by weighted_earlier
        (keep (λ (r : WaitingRow). str_eq r.project_slug slug) (s.scan_waiting rows))

  -- `GetWithOffsetLimit`
  unfoldable pub get_with_offset_limit : String → Option ℤ → Option ℤ → M (List WaitingListEntry)
  unfolding project_rows driver check_page paged entry_of
  get_with_offset_limit slug offset limit = do
    driver
    let effective_limit = or_default (pos 2147483647) limit
    let effective_offset = or_default (pos 0) offset
    check_page effective_limit effective_offset
    db ← get_db
    pure (map entry_of (paged effective_limit effective_offset (project_rows slug db.waiting_list)))

  -- `GetAll`
  unfoldable pub get_all : String → M (List WaitingListEntry)
  unfolding get_with_offset_limit
  get_all slug = get_with_offset_limit slug none none

  -- `DeleteByIDsTx`
  unfoldable pub delete_by_ids_tx : List String → M (Unit {0})
  unfolding delete_waiting driver typed_all
  delete_by_ids_tx [] = pure tt
  delete_by_ids_tx (i ∷ ids) = do
    driver
    keys ← typed_all s.uuid (i ∷ ids)
    delete_waiting (λ r. is_in keys r.id)
    pure tt

  -- `DeleteByIDTx`
  unfoldable pub delete_by_id_tx : String → M (Unit {0})
  unfolding delete_waiting driver typed removed
  delete_by_id_tx id = do
    driver
    key ← typed (s.uuid id)
    n ← delete_waiting (has_entry_id key)
    removed n

  -- `DeleteByUserIDTx`
  unfoldable pub delete_by_user_id_tx : String → M (Unit {0})
  unfolding delete_waiting driver typed
  delete_by_user_id_tx user_id = do
    driver
    key ← typed (s.uuid user_id)
    delete_waiting (is_of_user key)
    pure tt
