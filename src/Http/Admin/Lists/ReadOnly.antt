-- ===== src/Http/Admin/Lists/ReadOnly.antt =====
-- The admin pages only read: whatever holds of the tables before them holds after them.
use waitinglist.Prelude.{String, Option, none, some, List, ℕ}
use waitinglist.Prelude.Int.{ℤ, pos}
use waitinglist.Model.{Result, ok, err, UserEntity, WaitingListAdminRow, DayCount}
use waitinglist.Store.{Db}
use waitinglist.Repository.{Repository}
use waitinglist.Repository.Contract.{Contract}
use waitinglist.Repository.Reading.{
  count_by_access-Keeps, enlistments_by_day-Keeps, list_with_access-Keeps, list_joined-Keeps,
}
use waitinglist.Store.Keeps.{Keeps, action_rules, Keeps-then}
use waitinglist.Store.Action.{Action}
use waitinglist.Http.Types.{Request, Response}
use waitinglist.Http.Admin.Params.{
  AdminHandler, Parsed, value, refused, parse_int_query, default_dashboard_days, max_dashboard_days,
  default_admin_list_limit, max_admin_list_limit, max_offset, resolve_project_filter,
}
use waitinglist.Http.Admin.Lists.{
  filtered, parsed, on_series, on_counts, handle_dashboard, page, on_users, handle_list_with_access,
  on_rows, handle_list_waitlist,
}

module _ ⦃repo : Repository⦄ ⦃c : Contract repo⦄ {P : Db → Type 0} where
  filtered-Keeps :
      (o : Option String) (next : String → Action Response)
      → ((s : String) → Keeps P (next s))
      → Keeps P (filtered o next)
  unfolding filtered
  filtered-Keeps none next k = search action_rules
  filtered-Keeps (some s) next k = k s

  parsed-Keeps :
      (key : String) (n : Parsed) (next : ℤ → Action Response)
      → ((n : ℤ) → Keeps P (next n))
      → Keeps P (parsed key n next)
  unfolding parsed
  parsed-Keeps key (refused e) next k = search action_rules
  parsed-Keeps key (value n) next k = k n

  on_series-Keeps :
      (days : ℤ) (c : ℕ × ℕ) (r : Result (List DayCount)) → Keeps P (on_series days c r)
  unfolding on_series
  on_series-Keeps days (a, b) (ok s) = search action_rules
  on_series-Keeps days c (err _) = search action_rules

  on_counts-Keeps :
      (days : ℤ) (slug : String) (r : Result (ℕ × ℕ)) → Keeps P (on_counts days slug r)
  unfolding on_counts
  on_counts-Keeps days slug (ok c) =
      Keeps-then _ _ (enlistments_by_day-Keeps slug days) (on_series-Keeps days c)
  on_counts-Keeps days slug (err _) = search action_rules

  pub handle_dashboard-Keeps : (h : AdminHandler) (r : Request) → Keeps P (handle_dashboard h r)
  unfolding handle_dashboard
  handle_dashboard-Keeps h r =
      parsed-Keeps "days"
        (parse_int_query r "days" default_dashboard_days (pos 1) max_dashboard_days) _
        λ days.
          filtered-Keeps (resolve_project_filter h r) _
            λ slug. Keeps-then _ _ (count_by_access-Keeps slug) (on_counts-Keeps days slug)

  page-Keeps :
      (h : AdminHandler) (r : Request) (next : String → ℤ → ℤ → Action Response)
      → ((s : String) (l o : ℤ) → Keeps P (next s l o))
      → Keeps P (page h r next)
  unfolding page
  page-Keeps h r next k = filtered-Keeps (resolve_project_filter h r) _ λ s.
      parsed-Keeps "limit"
        (parse_int_query r "limit" default_admin_list_limit (pos 1) max_admin_list_limit) _
        λ l.
          parsed-Keeps "offset" (parse_int_query r "offset" (pos 0) (pos 0) max_offset) _
            λ o. k s l o

  on_users-Keeps : (l o : ℤ) (r : Result (List UserEntity)) → Keeps P (on_users l o r)
  unfolding on_users
  on_users-Keeps l o (ok us) = search action_rules
  on_users-Keeps l o (err _) = search action_rules

  pub handle_list_with_access-Keeps :
      (h : AdminHandler) (r : Request) → Keeps P (handle_list_with_access h r)
  unfolding handle_list_with_access
  handle_list_with_access-Keeps h r =
      page-Keeps h r _ λ s l o. Keeps-then _ _ (list_with_access-Keeps s _ l o) (on_users-Keeps l o)

  on_rows-Keeps : (l o : ℤ) (r : Result (List WaitingListAdminRow)) → Keeps P (on_rows l o r)
  unfolding on_rows
  on_rows-Keeps l o (ok us) = search action_rules
  on_rows-Keeps l o (err _) = search action_rules

  pub handle_list_waitlist-Keeps :
      (h : AdminHandler) (r : Request) → Keeps P (handle_list_waitlist h r)
  unfolding handle_list_waitlist
  handle_list_waitlist-Keeps h r =
      page-Keeps h r _ λ s l o. Keeps-then _ _ (list_joined-Keeps s _ l o) (on_rows-Keeps l o)
