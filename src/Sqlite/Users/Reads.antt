-- ===== src/Sqlite/Users/Reads.antt =====
-- The methods of the user repository that only read.
use waitinglist.Prelude.{
  ◌≡◌, refl, subst, String, Bool, true, Option, none, some, List, [], ◌∷◌, In, find_first,
  find_first-In,
}
use waitinglist.Prelude.Int.{ℤ}
use waitinglist.Model.{Time, Result, ok, err, UserEntity}
use waitinglist.Store.{Db, World}
use waitinglist.Store.Keeps.{Keeps, keeps_rules, driver-db}
use waitinglist.Store.Monad.{◌>>=◌, raise, proceed, pure, driver, get_db}
use waitinglist.Sqlite.Users.{
  or_not_found, get_by_email_tx, get_by_id, get_by_ids, get_user_info_by_emails, has_address,
}
use waitinglist.Sqlite.Users.Lists.{
  count_by_access, enlistments_by_day, get_granted_since, list_all_with_access, list_with_access,
}

module _ {P : Db → Type 0} where
  or_not_found-Keeps : (o : Option UserEntity) → Keeps P (or_not_found o)
  unfolding or_not_found
  or_not_found-Keeps none = search keeps_rules
  or_not_found-Keeps (some u) = search keeps_rules

  pub get_by_email_tx-Keeps : (slug email : String) → Keeps P (get_by_email_tx slug email)
  unfolding get_by_email_tx
  get_by_email_tx-Keeps slug email = search (keeps_rules, or_not_found-Keeps)

  pub get_by_id-Keeps : (id : String) → Keeps P (get_by_id id)
  unfolding get_by_id
  get_by_id-Keeps id = search (keeps_rules, or_not_found-Keeps)

  pub get_by_ids-Keeps : (ids : List String) → Keeps P (get_by_ids ids)
  unfolding get_by_ids
  get_by_ids-Keeps [] = search keeps_rules
  get_by_ids-Keeps (i ∷ ids) = search keeps_rules

  pub get_user_info_by_emails-Keeps :
      (slug : String) (emails : List String) → Keeps P (get_user_info_by_emails slug emails)
  unfolding get_user_info_by_emails
  get_user_info_by_emails-Keeps slug [] = search keeps_rules
  get_user_info_by_emails-Keeps slug (e ∷ emails) = search keeps_rules

  pub count_by_access-Keeps : (slug : String) → Keeps P (count_by_access slug)
  unfolding count_by_access
  count_by_access-Keeps slug = search keeps_rules

  pub enlistments_by_day-Keeps : (slug : String) (days : ℤ) → Keeps P (enlistments_by_day slug days)
  unfolding enlistments_by_day
  enlistments_by_day-Keeps slug days = search keeps_rules

  pub list_with_access-Keeps :
      (slug email_like : String) (limit offset : ℤ)
      → Keeps P (list_with_access slug email_like limit offset)
  unfolding list_with_access
  list_with_access-Keeps slug email_like limit offset = search keeps_rules

  pub list_all_with_access-Keeps : (slug : String) → Keeps P (list_all_with_access slug)
  unfolding list_all_with_access
  list_all_with_access-Keeps slug = search keeps_rules

  pub get_granted_since-Keeps :
      (slug : String) (since : Time) → Keeps P (get_granted_since slug since)
  unfolding get_granted_since
  get_granted_since-Keeps slug since = search keeps_rules

-- A user that is looked up is a row of the table, with the address that was asked for.
abbrev pub IsAnswer : Db → (UserEntity → Bool) → Result UserEntity → Type 0
IsAnswer db p (ok u) = In u db.user_entity × (p u ≡ true)
IsAnswer db p (err _) = Unit

or_not_found-IsAnswer :
    (db : Db) (p : UserEntity → Bool) (o : Option UserEntity) (w : World)
    → find_first p db.user_entity ≡ o
    → IsAnswer db p (or_not_found o w).0
unfolding or_not_found raise pure
or_not_found-IsAnswer db p none w e = tt
or_not_found-IsAnswer db p (some u) w e = find_first-In p db.user_entity e

get_by_email-IsAnswer :
    (slug email : String) (r : Result (Unit {0})) (w : World)
    → IsAnswer w.db
        (has_address slug email)
        (proceed r
          (λ _. get_db >>= λ db. or_not_found (find_first (has_address slug email) db.user_entity))
          w).0
unfolding ◌>>=◌
get_by_email-IsAnswer slug email (err e) w = tt
get_by_email-IsAnswer slug email (ok _) w =
    or_not_found-IsAnswer w.db (has_address slug email) _ w refl

pub get_by_email_tx-IsAnswer :
    (slug email : String) (w : World)
    → IsAnswer w.db (has_address slug email) (get_by_email_tx slug email w).0
unfolding get_by_email_tx ◌>>=◌
get_by_email_tx-IsAnswer slug email w =
    subst (λ db. IsAnswer db (has_address slug email) (get_by_email_tx slug email w).0)
      (driver-db w) (get_by_email-IsAnswer slug email (driver w).0 (driver w).1)
