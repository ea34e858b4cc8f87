-- ===== src/Http/Admin/Lists.antt =====
-- internal/handler/admin.go: the handlers that only read.
pub mod ReadOnly
use waitinglist.Prelude.{ℕ, ◌+◌, String, Option, none, some, List}
use waitinglist.Prelude.Int.{ℤ, pos}
use waitinglist.Prelude.Text.{trim_space}
use waitinglist.Model.{Result, ok, err, UserEntity, WaitingListAdminRow, DayCount}
use waitinglist.Http.Types.{
  Request, Response, query_get, bad_parameter, dashboard, users_page, waitlist_page, projects,
  write_json, write_error,
}
use waitinglist.Store.Action.{Action, reply, ◌>>=◌}
use waitinglist.Http.Enlist.{internal_error}
use waitinglist.Http.Admin.Params.{
  AdminHandler, Parsed, value, refused, default_admin_list_limit, max_admin_list_limit,
  default_dashboard_days, max_dashboard_days, max_offset, parse_int_query, resolve_project_filter,
}
use waitinglist.Repository.{Repository}

-- the end of a handler, at a project filter that was accepted
filtered : Option String → (String → Action Response) → Action Response
filtered none next = reply (write_error 400 "unknown project")
filtered (some slug) next = next slug

-- the end of a handler, at a parameter that was accepted
parsed : String → Parsed → (ℤ → Action Response) → Action Response
parsed key (refused e) next = reply (write_json 400 (bad_parameter key e))
parsed key (value n) next = next n

-- The filter, the limit and the offset of a page, in the order in which they are checked.
page : AdminHandler → Request → (String → ℤ → ℤ → Action Response) → Action Response
unfolding filtered parsed
page h r next = filtered (resolve_project_filter h r) λ slug.
    parsed "limit" (parse_int_query r "limit" default_admin_list_limit (pos 1) max_admin_list_limit)
      λ limit.
        parsed "offset" (parse_int_query r "offset" (pos 0) (pos 0) max_offset)
          λ offset. next slug limit offset

on_users : ℤ → ℤ → Result (List UserEntity) → Action Response
on_users limit offset (err _) = reply internal_error
on_users limit offset (ok us) = reply (write_json 200 (users_page us limit offset))

on_rows : ℤ → ℤ → Result (List WaitingListAdminRow) → Action Response
on_rows limit offset (err _) = reply internal_error
on_rows limit offset (ok rows) = reply (write_json 200 (waitlist_page rows limit offset))

-- `handleListProjects`
pub handle_list_projects : AdminHandler → Action Response
handle_list_projects h = reply (write_json 200 (projects h.projects))

module _ ⦃repo : Repository⦄ where
  open repo use {count_by_access, enlistments_by_day, list_with_access, list_joined}

  on_series : ℤ → ℕ × ℕ → Result (List DayCount) → Action Response
  on_series days counts (err _) = reply internal_error
  on_series days (on_list, with_access) (ok series) = reply (
      write_json 200 (
        dashboard (record {
          waiting_list = on_list;
          with_access = with_access;
          total = on_list + with_access;
          enlistments_by_day = series;
          window_days = days;
        })))

  on_counts : ℤ → String → Result (ℕ × ℕ) → Action Response
  unfolding on_series
  on_counts days slug (err _) = reply internal_error
  on_counts days slug (ok counts) = do
    series ← enlistments_by_day slug days
    on_series days counts series

  -- `handleDashboard`
  pub handle_dashboard : AdminHandler → Request → Action Response
  unfolding filtered parsed on_counts
  handle_dashboard h r =
      parsed "days" (parse_int_query r "days" default_dashboard_days (pos 1) max_dashboard_days)
        λ days.
          filtered (resolve_project_filter h r)
            λ slug. do counts ← count_by_access slug; on_counts days slug counts

  -- `handleListWithAccess`
  pub handle_list_with_access : AdminHandler → Request → Action Response
  unfolding page on_users
  handle_list_with_access h r = page h r λ slug limit offset. do
    us ← list_with_access slug (trim_space (query_get r "email")) limit offset
    on_users limit offset us

  -- `handleListWaitlist`
  pub handle_list_waitlist : AdminHandler → Request → Action Response
  unfolding page on_rows
  handle_list_waitlist h r = page h r λ slug limit offset. do
    rows ← list_joined slug (trim_space (query_get r "email")) limit offset
    on_rows limit offset rows
