-- ===== src/Invariant.antt =====
-- What holds of the tables between any two calls: the constraints of the schema, and what the
-- program alone sees to.
pub mod Tables
pub mod Update
pub mod Methods
pub mod Grant
pub mod Revoke
pub mod Removal
pub mod LetIn
pub mod Lasting
use waitinglist.Prelude.{◌≡◌, String, true, false, none, some, [], is_some, In, not-In-nil}
use waitinglist.Model.{UserEntity}
use waitinglist.Store.{Db, WaitingRow}
use waitinglist.Sqlite.Users.{valid_grant_source}

-- The audit columns of a user: the two CHECK constraints, and that access is dated and unrevoked.
pub record IsAudited (u : UserEntity) : Type 0 where
  pub revoke_pair : is_some u.access_revoked_at ≡ is_some u.access_revoke_reason
  pub source : (s : String) → u.access_granted_by ≡ some s → valid_grant_source s ≡ true
  pub dated : u.has_access ≡ true → is_some u.access_granted_at ≡ true
  pub attributed : u.has_access ≡ true → is_some u.access_granted_by ≡ true
  pub unrevoked : u.has_access ≡ true → u.access_revoked_at ≡ none

pub record IsValid (db : Db) : Type 0 where
  -- keys: the primary key, and UNIQUE (project_slug, email)
  pub user_key :
      (u v : UserEntity) → In u db.user_entity → In v db.user_entity → u.id ≡ v.id → u ≡ v
  pub address_key :
      (u v : UserEntity)
      → In u db.user_entity
      → In v db.user_entity
      → u.project_slug ≡ v.project_slug
      → u.email ≡ v.email
      → u ≡ v
  -- the primary key, UNIQUE (user_id), and the reference to user_entity
  pub entry_key :
      (r s : WaitingRow) → In r db.waiting_list → In s db.waiting_list → r.id ≡ s.id → r ≡ s
  pub waiting_key :
      (r s : WaitingRow)
      → In r db.waiting_list
      → In s db.waiting_list
      → r.user_id ≡ s.user_id
      → r ≡ s
  pub waiting_known :
      (r : WaitingRow)
      → In r db.waiting_list
      → (u : UserEntity) × In u db.user_entity × (u.id ≡ r.user_id)
  -- who waits has no access, and waits in the own project
  pub waiting_no_access :
      (u : UserEntity) (r : WaitingRow)
      → In u db.user_entity
      → In r db.waiting_list
      → u.id ≡ r.user_id
      → u.has_access ≡ false
  pub waiting_project :
      (u : UserEntity) (r : WaitingRow)
      → In u db.user_entity
      → In r db.waiting_list
      → u.id ≡ r.user_id
      → u.project_slug ≡ r.project_slug
  pub audited : (u : UserEntity) → In u db.user_entity → IsAudited u

abbrev pub empty_db : Db
empty_db = record { user_entity = []; waiting_list = []; scheduler_state = [] }

-- A fresh database is valid.
pub IsValid-empty : IsValid empty_db
IsValid-empty = record {
  user_key = λ u v m. absurd (not-In-nil m);
  address_key = λ u v m. absurd (not-In-nil m);
  entry_key = λ r s m. absurd (not-In-nil m);
  waiting_key = λ r s m. absurd (not-In-nil m);
  waiting_known = λ r m. absurd (not-In-nil m);
  waiting_no_access = λ u r m. absurd (not-In-nil m);
  waiting_project = λ u r m. absurd (not-In-nil m);
  audited = λ u m. absurd (not-In-nil m);
}
