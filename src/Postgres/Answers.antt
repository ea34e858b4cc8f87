-- ===== src/Postgres/Answers.antt =====
-- What the methods that read answer.
use waitinglist.Prelude.{
  ◌≡◌, refl, subst, sym, ap, String, Bool, true, false, ◌||◌, Option, none, some, List, In,
  find_first, find_first-In, In-map, In-keep, keep-In, map, if◌then◌else◌,
}
use waitinglist.Prelude.Int.{ℤ, pos}
use waitinglist.Prelude.Order.{In-order_by}
use waitinglist.Prelude.Reordered.{In-Reordered}
use waitinglist.Model.{Result, ok, err, UserEntity, WaitingListEntry}
use waitinglist.Store.{Db, World, WaitingRow}
use waitinglist.Store.Monad.{◌>>=◌, proceed, pure, raise, driver, get_db}
use waitinglist.Store.Keeps.{driver-db}
use waitinglist.Sqlite.Users.{has_address}
use waitinglist.Sqlite.Users.Reads.{IsAnswer}
use waitinglist.Sqlite.Waiting.{or_default}
use waitinglist.Sqlite.Rows.{limit_rows, offset_rows}
use waitinglist.Sqlite.Waiting.Reads.{In-limit, In-offset}
use waitinglist.Sqlite.Scheduler.Success.{read_last, LastRead-driver}
use waitinglist.Repository.Read.{Read, AllRead, rows_of, is_of_project}
use waitinglist.Repository.Contract.{LastRead}
use waitinglist.Postgres.Server.{Server, IsServer}
use waitinglist.Postgres.Users.{or_not_found, get_by_email_tx}
use waitinglist.Postgres.Users.Lists.{check_page, paged, is_negative}
use waitinglist.Postgres.Waiting.{
  weighted_created_at, weighted_earlier, entry_of, project_rows, get_with_offset_limit,
}
use waitinglist.Postgres.Scheduler.{get_last_success}

pub get_last_success-LastRead :
    (slug name : String) (w : World) → LastRead slug name w (get_last_success slug name w)
unfolding get_last_success ◌>>=◌
get_last_success-LastRead slug name w =
    LastRead-driver slug name w (get_last_success slug name w)
      (read_last slug name (driver w).0 (driver w).1)

module _ (s : Server) (law : IsServer s) where
  found :
      (p : UserEntity → Bool) (o : Option UserEntity) (w : World)
      → find_first p (s.scan_users w.db.user_entity) ≡ o
      → IsAnswer w.db p (or_not_found o w).0
  unfolding or_not_found raise pure
  found p none w e = tt
  found p (some u) w e =
      let m = find_first-In p (s.scan_users w.db.user_entity) e in
      (In-Reordered (law.users_once w.db.user_entity) m.0, m.1)

  looked_up :
      (slug email : String) (r : Result (Unit {0})) (w : World)
      → IsAnswer w.db
          (has_address slug email)
          (proceed r
            (λ _. get_db >>= λ db.
              or_not_found (find_first (has_address slug email) (s.scan_users db.user_entity)))
            w).0
  unfolding ◌>>=◌
  looked_up slug email (err e) w = tt
  looked_up slug email (ok _) w = found (has_address slug email) _ w refl

  -- A user that is looked up is a row of the table, with the address that was asked for.
  pub get_by_email_tx-IsAnswer :
      (slug email : String) (w : World)
      → IsAnswer w.db (has_address slug email) (get_by_email_tx s slug email w).0
  unfolding get_by_email_tx ◌>>=◌
  get_by_email_tx-IsAnswer slug email w =
      subst (λ db. IsAnswer db (has_address slug email) (get_by_email_tx s slug email w).0)
        (driver-db w) (looked_up slug email (driver w).0 (driver w).1)

  pub In-project_rows :
      {r : WaitingRow} (slug : String) (rows : List WaitingRow)
      → In r (project_rows s slug rows)
      → In r (rows_of slug rows)
  unfolding project_rows
  In-project_rows slug rows m =
      let k =
        In-keep (is_of_project slug) (s.scan_waiting rows)
          (In-order_by weighted_earlier (rows_of slug (s.scan_waiting rows)) m) in
      keep-In (is_of_project slug) rows (In-Reordered (law.waiting_once rows) k.0) k.1

  page-Read :
      (slug : String) (limit offset : ℤ) (db : Db) (e : WaitingListEntry)
      → In e (map entry_of (paged limit offset (project_rows s slug db.waiting_list)))
      → Read (λ r. some (weighted_created_at r)) (rows_of slug db.waiting_list) e
  unfolding paged entry_of
  page-Read slug limit offset db e m =
      let rows = project_rows s slug db.waiting_list in
      let row = In-map entry_of (limit_rows limit (offset_rows offset rows)) m in
      let at = ap (λ (x : WaitingListEntry). x) row.2 in
      record {
        row = row.0;
        known =
            In-project_rows slug db.waiting_list
              (In-offset offset rows (In-limit limit (offset_rows offset rows) row.1));
        id = sym (ap (λ (x : WaitingListEntry). x.id) row.2);
        user_id = sym (ap (λ (x : WaitingListEntry). x.user_id) row.2);
        project_slug = sym (ap (λ (x : WaitingListEntry). x.project_slug) row.2);
        weighted_time = sym (ap (λ (x : WaitingListEntry). some x.weighted_created_at) row.2);
      }

  abbrev PageRead : String → World → Result (List WaitingListEntry) → Type 0
  PageRead slug w r =
      AllRead (λ row. some (weighted_created_at row)) (rows_of slug w.db.waiting_list) r

  checked :
      (slug : String) (limit offset : ℤ) (negative : Bool) (w : World)
      → PageRead slug w
          (((if negative then raise waitinglist.Model.failed else pure tt) >>= λ _. get_db >>= λ db.
              pure (map entry_of (paged limit offset (project_rows s slug db.waiting_list))))
            w).0
  unfolding ◌>>=◌
  checked slug limit offset true w = tt
  checked slug limit offset false w = page-Read slug limit offset w.db

  read_page :
      (slug : String) (limit offset : ℤ) (r : Result (Unit {0})) (w : World)
      → PageRead slug w
          (proceed r
            (λ _. check_page limit offset >>= λ _. get_db >>= λ db.
              pure (map entry_of (paged limit offset (project_rows s slug db.waiting_list))))
            w).0
  unfolding check_page
  read_page slug limit offset (err _) w = tt
  read_page slug limit offset (ok _) w =
      checked slug limit offset (is_negative limit || is_negative offset) w

  -- `GetWithOffsetLimit` gives entries of the project's rows.
  pub get_with_offset_limit-AllRead :
      (slug : String) (offset limit : Option ℤ) (w : World)
      → PageRead slug w (get_with_offset_limit s slug offset limit w).0
  unfolding get_with_offset_limit ◌>>=◌
  get_with_offset_limit-AllRead slug offset limit w =
      subst
        (λ db.
          AllRead (λ row. some (weighted_created_at row)) (rows_of slug db.waiting_list)
            (get_with_offset_limit s slug offset limit w).0)
        (driver-db w)
        (unfold ◌>>=◌ in
          read_page slug (or_default (pos 2147483647) limit) (or_default (pos 0) offset)
            (driver w).0 (driver w).1)
