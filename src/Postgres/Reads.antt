-- ===== src/Postgres/Reads.antt =====
-- The methods that only read change no table.
use waitinglist.Prelude.{String, Option, none, some, List, [], ◌∷◌}
use waitinglist.Prelude.Int.{ℤ}
use waitinglist.Model.{Time, UserEntity}
use waitinglist.Store.{Db}
use waitinglist.Store.Keeps.{Keeps, keeps_rules, Keeps-bind, Keeps-pure, Keeps-driver, Keeps-get_db}
use waitinglist.Postgres.Server.{Server}
use waitinglist.Postgres.Rules.{typed-Keeps, typed_all-Keeps}
use waitinglist.Postgres.Users.{
  or_not_found, get_by_email_tx, get_by_id, get_by_ids, get_user_info_by_emails,
}
use waitinglist.Postgres.Users.Lists.{
  check_page, count_by_access, enlistments_by_day, list_with_access, list_all_with_access,
  get_granted_since,
}
use waitinglist.Postgres.Waiting.{get_with_offset_limit, get_all}
use waitinglist.Postgres.Waiting.Joins.{get_enlisted_since, list_all_joined, list_joined}

module _ {P : Db → Type 0} where
  or_not_found-Keeps : (o : Option UserEntity) → Keeps P (or_not_found o)
  unfolding or_not_found
  or_not_found-Keeps none = search keeps_rules
  or_not_found-Keeps (some u) = search keeps_rules

  check_page-Keeps : (limit offset : ℤ) → Keeps P (check_page limit offset)
  unfolding check_page
  check_page-Keeps limit offset = search keeps_rules

  pub count_by_access-Keeps : (slug : String) → Keeps P (count_by_access slug)
  unfolding count_by_access
  count_by_access-Keeps slug = search keeps_rules

  pub enlistments_by_day-Keeps :
      (now : Time) (slug : String) (days : ℤ) → Keeps P (enlistments_by_day now slug days)
  unfolding enlistments_by_day
  enlistments_by_day-Keeps now slug days = search keeps_rules

  module _ (s : Server) where
    pub get_by_email_tx-Keeps : (slug email : String) → Keeps P (get_by_email_tx s slug email)
    unfolding get_by_email_tx
    get_by_email_tx-Keeps slug email = search (keeps_rules, or_not_found-Keeps)

    pub get_user_info_by_emails-Keeps :
        (slug : String) (emails : List String) → Keeps P (get_user_info_by_emails s slug emails)
    unfolding get_user_info_by_emails
    get_user_info_by_emails-Keeps slug [] = search keeps_rules
    get_user_info_by_emails-Keeps slug (e ∷ emails) = search keeps_rules

    pub get_by_id-Keeps : (id : String) → Keeps P (get_by_id s id)
    unfolding get_by_id
    get_by_id-Keeps id = Keeps-bind _ _ Keeps-driver λ _.
        Keeps-bind _ _ (typed-Keeps (s.uuid id))
          λ key. Keeps-bind _ _ Keeps-get_db λ db. or_not_found-Keeps _

    pub get_by_ids-Keeps : (ids : List String) → Keeps P (get_by_ids s ids)
    unfolding get_by_ids
    get_by_ids-Keeps [] = search keeps_rules
    get_by_ids-Keeps (i ∷ ids) = Keeps-bind _ _ Keeps-driver λ _.
        Keeps-bind _ _ (typed_all-Keeps s.uuid (i ∷ ids))
          λ keys. Keeps-bind _ _ Keeps-get_db λ db. Keeps-pure _

    pub list_with_access-Keeps :
        (slug email_like : String) (limit offset : ℤ)
        → Keeps P (list_with_access s slug email_like limit offset)
    unfolding list_with_access
    list_with_access-Keeps slug email_like limit offset = search (keeps_rules, check_page-Keeps)

    pub list_all_with_access-Keeps : (slug : String) → Keeps P (list_all_with_access s slug)
    unfolding list_all_with_access
    list_all_with_access-Keeps slug = search keeps_rules

    pub get_granted_since-Keeps :
        (slug : String) (since : Time) → Keeps P (get_granted_since s slug since)
    unfolding get_granted_since
    get_granted_since-Keeps slug since = search keeps_rules

    pub get_with_offset_limit-Keeps :
        (slug : String) (offset limit : Option ℤ)
        → Keeps P (get_with_offset_limit s slug offset limit)
    unfolding get_with_offset_limit
    get_with_offset_limit-Keeps slug offset limit = search (keeps_rules, check_page-Keeps)

    pub get_all-Keeps : (slug : String) → Keeps P (get_all s slug)
    unfolding get_all
    get_all-Keeps slug = get_with_offset_limit-Keeps slug none none

    pub get_enlisted_since-Keeps :
        (slug : String) (since : Time) → Keeps P (get_enlisted_since s slug since)
    unfolding get_enlisted_since
    get_enlisted_since-Keeps slug since = search keeps_rules

    pub list_all_joined-Keeps : (slug : String) → Keeps P (list_all_joined s slug)
    unfolding list_all_joined
    list_all_joined-Keeps slug = search keeps_rules

    pub list_joined-Keeps :
        (slug email_like : String) (limit offset : ℤ)
        → Keeps P (list_joined s slug email_like limit offset)
    unfolding list_joined
    list_joined-Keeps slug email_like limit offset = search (keeps_rules, check_page-Keeps)
