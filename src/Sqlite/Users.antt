-- ===== src/Sqlite/Users.antt =====
-- internal/repository/sqlite/user.go: the user repository.
pub mod Lists
pub mod Reads
pub mod Series
pub mod Pages
use Prim.Native.String.{◌++◌ as append}
use waitinglist.Prelude.{
  ℕ, zero, suc, ◌-◌, ◌*◌, ◌/◌, String, Bool, true, false, not, ◌&&◌, ◌||◌, Option, none, some, List,
  [], ◌∷◌, ◌++◌, map, leb, ltb, ◌==◌, if◌then◌else◌, any, keep, length, find_first, is_empty,
}
use waitinglist.Prelude.Int.{ℤ, pos, negsuc}
use waitinglist.Prelude.Order.{order_by}
use waitinglist.Prelude.Text.{str_eq, trim_space}
use waitinglist.Model.{
  Time, ok, err, failed, duplicate_email, user_not_found, revoke_reason_required,
  invalid_grant_source, UserEntity, UserInfo, DayCount,
}
use waitinglist.Model.Clock.{day, whole_seconds}
use waitinglist.Store.{WaitingRow}
use waitinglist.Store.Monad.{
  M, pure, raise, ◌>>=◌, ◌>>◌, driver, get_db, time_now, sql_now, new_uuid,
}
use waitinglist.Sqlite.Rows.{is_in, update_where, limit_rows, offset_rows, like, text_le}

-- `validGrantSources`
abbrev pub valid_grant_source : String → Bool
valid_grant_source source = str_eq source "scheduler" || str_eq source "admin"

-- The row that INSERT INTO user_entity (id, project_slug, firstname, lastname, email, ip_address)
-- writes: the columns that it does not name take their defaults.
abbrev pub new_user_row : String → Time → UserEntity → UserEntity
new_user_row id now user = record {
  id = id;
  project_slug = user.project_slug;
  firstname = user.firstname;
  lastname = user.lastname;
  email = user.email;
  has_access = false;
  created_at = now;
  ip_address = user.ip_address;
  access_granted_at = none;
  access_granted_by = none;
  access_revoked_at = none;
  access_revoked_by = none;
  access_revoke_reason = none;
}

abbrev pub has_address : String → String → UserEntity → Bool
has_address slug email u = str_eq u.project_slug slug && str_eq u.email email

abbrev pub has_id : String → UserEntity → Bool
has_id id u = str_eq u.id id

-- The primary key is no UNIQUE error of the driver, so its violation has no sentinel.
unfoldable pub insert_user : String → Time → UserEntity → M (Unit {0})
insert_user id now user w =
    if any (has_id id) w.user_entity
    then (err failed, w)
    else if any (has_address user.project_slug user.email) w.user_entity
    then (err duplicate_email, w)
    else (
      ok tt,
      record w {
        db = record w.db { user_entity = w.user_entity ++ new_user_row id now user ∷ [] };
      },
    )

-- `CreateTx`: the user comes back with what the row was given.
unfoldable pub create_tx : UserEntity → M UserEntity
unfolding insert_user driver
create_tx user = do
  id ← new_uuid
  driver
  now ← sql_now
  insert_user id now user
  pure (record user { id = id; has_access = false; created_at = now })

or_not_found : Option UserEntity → M UserEntity
or_not_found none = raise user_not_found
or_not_found (some u) = pure u

-- `GetByEmailTx`
unfoldable pub get_by_email_tx : String → String → M UserEntity
unfolding or_not_found driver
get_by_email_tx slug email = do
  driver
  db ← get_db
  or_not_found (find_first (has_address slug email) db.user_entity)

abbrev pub user_info : UserEntity → UserInfo
user_info u = record {
  project_slug = u.project_slug;
  firstname = u.firstname;
  lastname = u.lastname;
  email = u.email;
  has_access = u.has_access;
  created_at = u.created_at;
  access_granted_at = u.access_granted_at;
  access_granted_by = u.access_granted_by;
  access_revoked_at = u.access_revoked_at;
  access_revoke_reason = u.access_revoke_reason;
}

abbrev pub is_asked : String → List String → UserEntity → Bool
is_asked slug emails u = str_eq u.project_slug slug && is_in emails u.email

-- `GetUserInfoByEmails`
unfoldable pub get_user_info_by_emails : String → List String → M (List UserInfo)
unfolding driver
get_user_info_by_emails slug [] = pure []
get_user_info_by_emails slug (e ∷ emails) = do
  driver
  db ← get_db
  pure (map user_info (keep (is_asked slug (e ∷ emails)) db.user_entity))

abbrev pub grant_row : Time → String → UserEntity → UserEntity
grant_row now source u = record u {
  has_access = true;
  access_granted_at = some now;
  access_granted_by = some source;
  access_revoked_at = none;
  access_revoked_by = none;
  access_revoke_reason = none;
}

-- An UPDATE of users, and the number of rows that it matched.
unfoldable pub update_users : (UserEntity → Bool) → (UserEntity → UserEntity) → M ℕ
update_users p f w = (
  ok (length (keep p w.user_entity)),
  record w { db = record w.db { user_entity = update_where p f w.user_entity } },
)

unfoldable pub grant_matched : List String → String → M (Unit {0})
unfolding update_users driver
grant_matched ids source = do
  driver
  now ← sql_now
  n ← update_users (λ u. is_in ids u.id) (grant_row now source)
  driver
  if n == 0 then raise user_not_found else pure tt

-- `GrantAccessTx`
unfoldable pub grant_access_tx : List String → String → M (Unit {0})
unfolding grant_matched
grant_access_tx ids source =
    if not (valid_grant_source source)
    then raise invalid_grant_source
    else if is_empty ids
    then pure tt
    else grant_matched ids source

-- `GetByID`
unfoldable pub get_by_id : String → M UserEntity
unfolding or_not_found driver
get_by_id id = do driver; db ← get_db; or_not_found (find_first (has_id id) db.user_entity)

-- `GetByIDs`
unfoldable pub get_by_ids : List String → M (List UserEntity)
unfolding driver
get_by_ids [] = pure []
get_by_ids (i ∷ ids) = do
  driver
  db ← get_db
  pure (keep (λ u. is_in (i ∷ ids) u.id) db.user_entity)

abbrev pub revoke_row : Time → String → String → UserEntity → UserEntity
revoke_row now by reason u = record u {
  has_access = false;
  access_revoked_at = some now;
  access_revoked_by = some by;
  access_revoke_reason = some reason;
}

unfoldable pub revoke_matched : String → String → String → M (Unit {0})
unfolding update_users driver
revoke_matched id reason by = do
  driver
  now ← sql_now
  n ← update_users (has_id id) (revoke_row now by reason)
  driver
  if n == 0 then raise user_not_found else pure tt

-- `RevokeAccessTx`
unfoldable pub revoke_access_tx : String → String → String → M (Unit {0})
unfolding revoke_matched
revoke_access_tx id reason by =
    if str_eq (trim_space reason) ""
    then raise revoke_reason_required
    else revoke_matched id reason by
