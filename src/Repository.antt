-- ===== src/Repository.antt =====
-- The repository interfaces of cmd/server/main.go, through which handlers and tasks reach the
-- database. `Create`, `GetByEmail`, `GrantAccess`, `RevokeAccess` and the deletions that only pass the
-- database to their form with a transaction stand under that form.
pub mod Read
pub mod Keys
pub mod Contract
pub mod Reading
pub mod Closed
pub mod OverSqlite
pub mod OverPostgres
pub mod Agreement
use waitinglist.Prelude.{ℕ, String, Option, List}
use waitinglist.Prelude.Int.{ℤ}
use waitinglist.Model.{Time, UserEntity, UserInfo, DayCount, WaitingListEntry, WaitingListAdminRow}
use waitinglist.Store.Monad.{M}

pub record Repository : Type 0 where
  -- `userRepository`
  pub create_tx : UserEntity → M UserEntity
  pub get_by_email_tx : String → String → M UserEntity
  pub get_user_info_by_emails : String → List String → M (List UserInfo)
  pub grant_access_tx : List String → String → M (Unit {0})
  pub revoke_access_tx : String → String → String → M (Unit {0})
  pub get_by_id : String → M UserEntity
  pub get_by_ids : List String → M (List UserEntity)
  pub count_by_access : String → M (ℕ × ℕ)
  pub enlistments_by_day : String → ℤ → M (List DayCount)
  pub list_with_access : String → String → ℤ → ℤ → M (List UserEntity)
  pub list_all_with_access : String → M (List UserEntity)
  pub get_granted_since : String → Time → M (List UserEntity)
  -- `waitingListRepository`
  pub add : String → String → M WaitingListEntry
  pub get_all : String → M (List WaitingListEntry)
  pub get_with_offset_limit : String → Option ℤ → Option ℤ → M (List WaitingListEntry)
  pub get_enlisted_since : String → Time → M (List WaitingListAdminRow)
  pub list_all_joined : String → M (List WaitingListAdminRow)
  pub list_joined : String → String → ℤ → ℤ → M (List WaitingListAdminRow)
  pub delete_by_ids_tx : List String → M (Unit {0})
  pub delete_by_id_tx : String → M (Unit {0})
  pub delete_by_user_id_tx : String → M (Unit {0})
  -- `schedulerRepository`
  pub get_last_success : String → String → M Time
  pub update_last_success : String → String → M (Unit {0})
