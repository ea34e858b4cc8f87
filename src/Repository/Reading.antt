-- ===== src/Repository/Reading.antt =====
-- Over a contract: the methods that only ask keep whatever holds of the tables.
use waitinglist.Prelude.{sym, subst, String, Option, List}
use waitinglist.Prelude.Int.{ℤ}
use waitinglist.Model.{Time}
use waitinglist.Store.{Db}
use waitinglist.Store.Monad.{M}
use waitinglist.Store.Keeps.{Keeps}
use waitinglist.Repository.{Repository}
use waitinglist.Repository.Contract.{Contract, Reads}

-- Whatever holds of the tables before a method that only asks holds after it.
pub Reads-Keeps : {A : Type 0} {P : Db → Type 0} (m : M A) → Reads m → Keeps P m
Reads-Keeps {P = P} m r = record { at = λ w h. subst P (sym (r w)) h }

module _ ⦃repo : Repository⦄ ⦃c : Contract repo⦄ {P : Db → Type 0} where
  open repo use {
    get_by_email_tx, get_user_info_by_emails, get_by_id, get_by_ids, count_by_access,
    enlistments_by_day, list_with_access, list_all_with_access, get_granted_since, get_all,
    get_with_offset_limit, get_enlisted_since, list_all_joined, list_joined, get_last_success,
  }

  pub get_by_email_tx-Keeps : (slug email : String) → Keeps P (get_by_email_tx slug email)
  get_by_email_tx-Keeps slug email = Reads-Keeps _ (c.get_by_email_tx_reads slug email)

  pub get_user_info_by_emails-Keeps :
      (slug : String) (emails : List String) → Keeps P (get_user_info_by_emails slug emails)
  get_user_info_by_emails-Keeps slug emails =
      Reads-Keeps _ (c.get_user_info_by_emails_reads slug emails)

  pub get_by_id-Keeps : (id : String) → Keeps P (get_by_id id)
  get_by_id-Keeps id = Reads-Keeps _ (c.get_by_id_reads id)

  pub get_by_ids-Keeps : (ids : List String) → Keeps P (get_by_ids ids)
  get_by_ids-Keeps ids = Reads-Keeps _ (c.get_by_ids_reads ids)

  pub count_by_access-Keeps : (slug : String) → Keeps P (count_by_access slug)
  count_by_access-Keeps slug = Reads-Keeps _ (c.count_by_access_reads slug)

  pub enlistments_by_day-Keeps : (slug : String) (days : ℤ) → Keeps P (enlistments_by_day slug days)
  enlistments_by_day-Keeps slug days = Reads-Keeps _ (c.enlistments_by_day_reads slug days)

  pub list_with_access-Keeps :
      (slug email_like : String) (limit offset : ℤ)
      → Keeps P (list_with_access slug email_like limit offset)
  list_with_access-Keeps slug email_like limit offset =
      Reads-Keeps _ (c.list_with_access_reads slug email_like limit offset)

  pub list_all_with_access-Keeps : (slug : String) → Keeps P (list_all_with_access slug)
  list_all_with_access-Keeps slug = Reads-Keeps _ (c.list_all_with_access_reads slug)

  pub get_granted_since-Keeps :
      (slug : String) (since : Time) → Keeps P (get_granted_since slug since)
  get_granted_since-Keeps slug since = Reads-Keeps _ (c.get_granted_since_reads slug since)

  pub get_all-Keeps : (slug : String) → Keeps P (get_all slug)
  get_all-Keeps slug = Reads-Keeps _ (c.get_all_reads slug)

  pub get_with_offset_limit-Keeps :
      (slug : String) (offset limit : Option ℤ) → Keeps P (get_with_offset_limit slug offset limit)
  get_with_offset_limit-Keeps slug offset limit =
      Reads-Keeps _ (c.get_with_offset_limit_reads slug offset limit)

  pub get_enlisted_since-Keeps :
      (slug : String) (since : Time) → Keeps P (get_enlisted_since slug since)
  get_enlisted_since-Keeps slug since = Reads-Keeps _ (c.get_enlisted_since_reads slug since)

  pub list_all_joined-Keeps : (slug : String) → Keeps P (list_all_joined slug)
  list_all_joined-Keeps slug = Reads-Keeps _ (c.list_all_joined_reads slug)

  pub list_joined-Keeps :
      (slug email_like : String) (limit offset : ℤ)
      → Keeps P (list_joined slug email_like limit offset)
  list_joined-Keeps slug email_like limit offset =
      Reads-Keeps _ (c.list_joined_reads slug email_like limit offset)

  pub get_last_success-Keeps : (slug name : String) → Keeps P (get_last_success slug name)
  get_last_success-Keeps slug name = Reads-Keeps _ (λ w. (c.get_last_success_read slug name w).db)
