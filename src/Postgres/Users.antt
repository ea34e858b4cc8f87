-- ===== src/Postgres/Users.antt =====
-- internal/repository/postgres/user.go: the user repository. `now` is NOW(), the start of the
-- transaction, or of a statement that stands alone; the program and the session are in UTC.
pub mod Lists
use waitinglist.Prelude.{
  ℕ, String, Bool, true, false, not, Option, none, some, List, [], ◌∷◌, ◌++◌, map, ◌==◌,
  if◌then◌else◌, any, keep, find_first, is_empty,
}
use waitinglist.Prelude.Text.{str_eq, trim_space}
use waitinglist.Model.{
  Time, Result, ok, err, duplicate_email, user_not_found, revoke_reason_required,
  invalid_grant_source, UserEntity, UserInfo,
}
use waitinglist.Store.Monad.{M, pure, raise, ◌>>=◌, ◌>>◌, driver, get_db, new_uuid}
use waitinglist.Sqlite.Rows.{is_in}
use waitinglist.Sqlite.Users.{
  valid_grant_source, new_user_row, has_address, has_id, user_info, is_asked, grant_row, revoke_row,
  update_users,
}
use waitinglist.Postgres.Server.{Server, typed, typed_all, typed_null, varchar}

-- Every violated key has the code 23505, the primary key too.
unfoldable pub insert_user : UserEntity → M (Unit {0})
insert_user row w =
    if any (has_id row.id) w.user_entity
    then (err duplicate_email, w)
    else if any (has_address row.project_slug row.email) w.user_entity
    then (err duplicate_email, w)
    else (ok tt, record w { db = record w.db { user_entity = w.user_entity ++ row ∷ [] } })

unfoldable pub or_not_found : Option UserEntity → M UserEntity
or_not_found none = raise user_not_found
or_not_found (some u) = pure u

-- the rows of an UPDATE, as `RowsAffected` counts them
unfoldable pub affected : ℕ → M (Unit {0})
unfolding driver
affected n = do driver; if n == 0 then raise user_not_found else pure tt

module _ (s : Server) where
  -- `CreateTx`: the identifier is the canonical text of what gen_random_uuid() draws, and the columns
  -- have their types.
  unfoldable pub create_tx : Time → UserEntity → M UserEntity
  unfolding insert_user driver typed typed_null varchar
  create_tx now user = do
    driver
    firstname ← typed (varchar 255 user.firstname)
    lastname ← typed (varchar 255 user.lastname)
    email ← typed (varchar 255 user.email)
    ip_address ← typed_null s.inet user.ip_address
    drawn ← new_uuid
    id ← typed (s.uuid drawn)
    let stored = record user {
      firstname = firstname;
      lastname = lastname;
      email = email;
      ip_address = ip_address;
    }
    insert_user (new_user_row id now stored)
    pure (record user { id = id; has_access = false; created_at = now })

  -- `GetByEmailTx`
  unfoldable pub get_by_email_tx : String → String → M UserEntity
  unfolding or_not_found driver
  get_by_email_tx slug email = do
    driver
    db ← get_db
    or_not_found (find_first (has_address slug email) (s.scan_users db.user_entity))

  -- `GetUserInfoByEmails`
  unfoldable pub get_user_info_by_emails : String → List String → M (List UserInfo)
  unfolding driver
  get_user_info_by_emails slug [] = pure []
  get_user_info_by_emails slug (e ∷ emails) = do
    driver
    db ← get_db
    pure (map user_info (keep (is_asked slug (e ∷ emails)) (s.scan_users db.user_entity)))

  unfoldable pub grant_matched : Time → List String → String → M (Unit {0})
  unfolding update_users driver typed_all affected
  grant_matched now ids source = do
    driver
    keys ← typed_all s.uuid ids
    n ← update_users (λ u. is_in keys u.id) (grant_row now source)
    affected n

  -- `GrantAccessTx`
  unfoldable pub grant_access_tx : Time → List String → String → M (Unit {0})
  unfolding grant_matched
  grant_access_tx now ids source =
      if not (valid_grant_source source)
      then raise invalid_grant_source
      else if is_empty ids
      then pure tt
      else grant_matched now ids source

  -- `GetByID`
  unfoldable pub get_by_id : String → M UserEntity
  unfolding or_not_found driver typed
  get_by_id id = do
    driver
    key ← typed (s.uuid id)
    db ← get_db
    or_not_found (find_first (has_id key) (s.scan_users db.user_entity))

  -- `GetByIDs`
  unfoldable pub get_by_ids : List String → M (List UserEntity)
  unfolding driver typed_all
  get_by_ids [] = pure []
  get_by_ids (i ∷ ids) = do
    driver
    keys ← typed_all s.uuid (i ∷ ids)
    db ← get_db
    pure (keep (λ u. is_in keys u.id) (s.scan_users db.user_entity))

  unfoldable pub revoke_matched : Time → String → String → String → M (Unit {0})
  unfolding update_users driver typed affected
  revoke_matched now id reason by = do
    driver
    key ← typed (s.uuid id)
    n ← update_users (has_id key) (revoke_row now by reason)
    affected n

  -- `RevokeAccessTx`
  unfoldable pub revoke_access_tx : Time → String → String → String → M (Unit {0})
  unfolding revoke_matched
  revoke_access_tx now id reason by =
      if str_eq (trim_space reason) ""
      then raise revoke_reason_required
      else revoke_matched now id reason by
