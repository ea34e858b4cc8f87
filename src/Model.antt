-- ===== src/Model.antt =====
-- internal/model/model.go: the sentinel errors, the projects and the rows that the other parts
-- exchange. An instant is a number of nanoseconds since Go's zero time; a duration is a Go `int64`.
pub mod Clock
use waitinglist.Prelude.{ℕ, String, Bool, Option, List}
use waitinglist.Prelude.Int.{ℤ}

abbrev pub Time : Type 0
Time = ℕ

abbrev pub Duration : Type 0
Duration = ℤ

-- `failed` is every error that no sentinel names: the driver's, or a wrapped one.
pub data Error : Type 0 where
  duplicate_email user_not_found already_on_waiting_list waiting_list_foreign_key : Error
  already_has_access revoke_reason_required waiting_list_entry_not_found : Error
  invalid_grant_source failed : Error

pub data Result {ℓ} (A : Type ℓ) : Type ℓ where
  ok : A → Result A
  err : Error → Result A

pub record ProjectEmail : Type 0 where
  pub from : String
  pub subject : String
  pub template_path : String

pub record ProjectDigest : Type 0 where
  pub recipients : List String
  pub schedule : String
  pub from : String
  pub subject : String

pub record Project : Type 0 where
  pub slug : String
  pub name : String
  pub url : String
  pub email : ProjectEmail
  pub digest : ProjectDigest
  pub entry_batch_size : Option ℤ
  pub entry_window_interval : Option Duration
  pub waitlist_check_interval : Option Duration
  pub scheduler_disabled : Bool

pub record UserEntity : Type 0 where
  pub id : String
  pub project_slug : String
  pub firstname : String
  pub lastname : String
  pub email : String
  pub has_access : Bool
  pub created_at : Time
  pub ip_address : Option String
  pub access_granted_at : Option Time
  pub access_granted_by : Option String
  pub access_revoked_at : Option Time
  pub access_revoked_by : Option String
  pub access_revoke_reason : Option String

pub record UserInfo : Type 0 where
  pub project_slug : String
  pub firstname : String
  pub lastname : String
  pub email : String
  pub has_access : Bool
  pub created_at : Time
  pub access_granted_at : Option Time
  pub access_granted_by : Option String
  pub access_revoked_at : Option Time
  pub access_revoke_reason : Option String

pub record WaitingListEntry : Type 0 where
  pub id : String
  pub project_slug : String
  pub user_id : String
  pub created_at : Time
  pub weighted_created_at : Time

-- A day is its number since Go's zero time: the source's `2006-01-02` text of it.
pub record DayCount : Type 0 where
  pub day : ℕ
  pub count : ℕ

pub record WaitingListAdminRow : Type 0 where
  pub entry_id : String
  pub project_slug : String
  pub user_id : String
  pub email : String
  pub firstname : String
  pub lastname : String
  pub weight : ℤ
  pub created_at : Time
  pub weighted_created_at : Time
