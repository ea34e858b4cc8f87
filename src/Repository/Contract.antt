-- ===== src/Repository/Contract.antt =====
-- What every repository owes to the handlers and tasks above it: which methods only ask, and what the
-- others have done to the tables where they succeed.
use waitinglist.Prelude.{
  ◌≡◌, refl, String, true, false, not, Option, some, List, [], ◌∷◌, ◌++◌, In, keep, find_first,
}
use waitinglist.Prelude.Int.{ℤ}
use waitinglist.Model.{Time, Result, ok, err, waiting_list_entry_not_found, UserEntity}
use waitinglist.Store.{Db, World, WaitingRow}
use waitinglist.Store.Monad.{M}
use waitinglist.Store.Keeps.{Keeps}
use waitinglist.Store.Ensures.{Ensures}
use waitinglist.Sqlite.Rows.{is_in, update_where}
use waitinglist.Sqlite.Users.{has_address, has_id, revoke_row, valid_grant_source}
use waitinglist.Sqlite.Users.Reads.{IsAnswer}
use waitinglist.Sqlite.Waiting.{has_entry_id, is_of_user}
use waitinglist.Sqlite.Scheduler.{has_key, value_or_zero, upsert}
use waitinglist.Invariant.Grant.{Granted, Deleted}
use waitinglist.Invariant.Revoke.{Revoked}
use waitinglist.Repository.{Repository}
use waitinglist.Repository.Read.{AllRead, rows_of}
use waitinglist.Repository.Keys.{KeyReader, read_all, Valid}

-- A method that only asks.
abbrev pub Reads : {A : Type 0} → M A → Type 0
Reads m = (w : World) → (m w).1.db ≡ w.db

-- The user that `CreateTx` returns is a row now, without access, and the only change. `column` is
-- what the column keeps of an address.
abbrev pub IsCreated : (String → String) → Db → Db → UserEntity → Result UserEntity → Type 0
IsCreated column start db new (ok u) =
    (v : UserEntity) × In v db.user_entity
    × (v.id ≡ u.id)
    × (v.has_access ≡ false)
    × (v.project_slug ≡ new.project_slug)
    × (column v.email ≡ column new.email)
    × (db ≡ record start { user_entity = start.user_entity ++ v ∷ [] })
IsCreated column start db new (err _) = Unit

-- what `Add` has inserted
abbrev pub Waiting : Db → String → String → String → Db → Type 0
Waiting start slug user_id id db =
    (r : WaitingRow) × In r db.waiting_list
    × (r.id ≡ id)
    × (r.user_id ≡ user_id)
    × (r.project_slug ≡ slug)
    × (db ≡ record start { waiting_list = start.waiting_list ++ r ∷ [] })

-- The tables without that entry.
abbrev pub without_entry : String → Db → Db
without_entry k db = record db { waiting_list = keep (λ r. not (has_entry_id k r)) db.waiting_list }

-- The tables with that user's access revoked.
abbrev pub with_revoked : String → Time → String → String → Db → Db
with_revoked k now by reason db = record db {
  user_entity = update_where (has_id k) (revoke_row now by reason) db.user_entity;
}

-- What `DeleteByID` answers: it has removed the entry, or an entry that is not there is no change.
abbrev pub Removed : KeyReader → Db → String → Result (Unit {0}) × World → Type 0
Removed key before id (ok _, w) = (k : String) × (key id ≡ some k) × (w.db ≡ without_entry k before)
Removed key before id (err e, w) = (e ≡ waiting_list_entry_not_found) → w.db ≡ before

-- What `GetLastSuccess` answers, and that it leaves tables and clock alone.
pub record LastRead (slug name : String) (w : World) (r : Result Time × World) : Type 0 where
  pub db : r.1.db ≡ w.db
  pub clock : r.1.clock ≡ w.clock
  pub stored :
      (t : Time) → r.0 ≡ ok t → t ≡ value_or_zero (find_first (has_key slug name) w.scheduler_state)

-- What `UpdateLastSuccess` has written, or nothing.
abbrev pub Written : Db → String → String → Result (Unit {0}) × World → Type 0
Written before slug name (ok _, w) =
    (now : Time) × (w.db
      ≡ record before { scheduler_state = upsert slug name now before.scheduler_state })
Written before slug name (err _, w) = w.db ≡ before

pub record Contract (repo : Repository) : Type 1 where
  pub key : KeyReader
  pub column : String → String
  pub weighted : WaitingRow → Option Time
  -- the methods that only ask
  pub get_by_email_tx_reads : (slug email : String) → Reads (repo.get_by_email_tx slug email)
  pub get_user_info_by_emails_reads :
      (slug : String) (emails : List String) → Reads (repo.get_user_info_by_emails slug emails)
  pub get_by_id_reads : (id : String) → Reads (repo.get_by_id id)
  pub get_by_ids_reads : (ids : List String) → Reads (repo.get_by_ids ids)
  pub count_by_access_reads : (slug : String) → Reads (repo.count_by_access slug)
  pub enlistments_by_day_reads :
      (slug : String) (days : ℤ) → Reads (repo.enlistments_by_day slug days)
  pub list_with_access_reads :
      (slug email_like : String) (limit offset : ℤ)
      → Reads (repo.list_with_access slug email_like limit offset)
  pub list_all_with_access_reads : (slug : String) → Reads (repo.list_all_with_access slug)
  pub get_granted_since_reads :
      (slug : String) (since : Time) → Reads (repo.get_granted_since slug since)
  pub get_all_reads : (slug : String) → Reads (repo.get_all slug)
  pub get_with_offset_limit_reads :
      (slug : String) (offset limit : Option ℤ)
      → Reads (repo.get_with_offset_limit slug offset limit)
  pub get_enlisted_since_reads :
      (slug : String) (since : Time) → Reads (repo.get_enlisted_since slug since)
  pub list_all_joined_reads : (slug : String) → Reads (repo.list_all_joined slug)
  pub list_joined_reads :
      (slug email_like : String) (limit offset : ℤ)
      → Reads (repo.list_joined slug email_like limit offset)
  -- what they answer
  pub get_by_email_tx_answer :
      (slug email : String) (w : World)
      → IsAnswer w.db (has_address slug email) (repo.get_by_email_tx slug email w).0
  pub get_with_offset_limit_read :
      (slug : String) (offset limit : Option ℤ) (w : World)
      → AllRead weighted
          (rows_of slug w.db.waiting_list)
          (repo.get_with_offset_limit slug offset limit w).0
  pub get_last_success_read :
      (slug name : String) (w : World) → LastRead slug name w (repo.get_last_success slug name w)
  -- the methods that write
  pub create_tx_keeps : (user : UserEntity) → Keeps (Valid key) (repo.create_tx user)
  pub create_tx_created :
      (user : UserEntity) (w : World)
      → IsCreated column w.db (repo.create_tx user w).1.db user (repo.create_tx user w).0
  pub add_ensures :
      (start : Db) (v : UserEntity) (slug user_id : String)
      → v.id ≡ user_id
      → v.has_access ≡ false
      → v.project_slug ≡ slug
      → Ensures
          (λ db. Valid key db × In v db.user_entity × (db ≡ start))
          (repo.add slug user_id)
          (λ e db. Valid key db × In v db.user_entity × Waiting start slug user_id e.id db)
  pub grant_access_tx_ensures :
      (P : Db → Type 0) (id : String) (ids : List String) (source : String)
      → valid_grant_source source ≡ true
      → Ensures P (repo.grant_access_tx (id ∷ ids) source) (λ _ db.
        (ks : List String) × (read_all key (id ∷ ids) ≡ some ks) × Granted P ks source db)
  pub delete_by_user_id_tx_ensures :
      (P : Db → Type 0) (id : String)
      → Ensures P
          (repo.delete_by_user_id_tx id)
          (λ _ db. (k : String) × (key id ≡ some k) × Deleted P (is_of_user k) db)
  pub delete_by_ids_tx_ensures :
      (P : Db → Type 0) (id : String) (ids : List String)
      → Ensures P (repo.delete_by_ids_tx (id ∷ ids)) (λ _ db.
        (ks : List String) × (read_all key (id ∷ ids) ≡ some ks)
        × Deleted P (λ r. is_in ks r.id) db)
  -- Whatever the removal of an entry or the revocation of a user keeps, the method keeps, also where
  -- it fails after the change.
  pub delete_by_id_tx_keeps :
      (P : Db → Type 0) (id : String)
      → ((k : String) (db : Db) → key id ≡ some k → P db → P (without_entry k db))
      → Keeps P (repo.delete_by_id_tx id)
  pub delete_by_id_tx_removed :
      (id : String) (w : World) → Removed key w.db id (repo.delete_by_id_tx id w)
  pub revoke_access_tx_keeps :
      (P : Db → Type 0) (id reason by : String)
      → ((k : String) (now : Time) (db : Db)
          → key id ≡ some k
          → P db
          → P (with_revoked k now by reason db))
      → Keeps P (repo.revoke_access_tx id reason by)
  pub revoke_access_tx_ensures :
      (before : Db) (id reason by : String)
      → Ensures
          (λ db. db ≡ before)
          (repo.revoke_access_tx id reason by)
          (λ _ db. (k : String) × (key id ≡ some k) × Revoked before k by reason db)
  pub update_last_success_written :
      (slug name : String) (w : World)
      → Written w.db slug name (repo.update_last_success slug name w)

-- What is kept whatever it is, is kept as it was.
pub unchanged : {A : Type 0} (m : M A) → ((P : Db → Type 0) → Keeps P m) → Reads m
unchanged m k w = (k (λ db. db ≡ w.db)).at w refl
