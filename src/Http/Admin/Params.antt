-- ===== src/Http/Admin/Params.antt =====
-- internal/handler/admin.go: the handler's own state, and the parameters of its requests.
pub mod Bounds
use waitinglist.Prelude.{ℕ, ◌^◌, String, Bool, Option, none, some, List, if◌then◌else◌, find_first}
use waitinglist.Prelude.Int.{ℤ, pos, ltb_ℤ}
use waitinglist.Prelude.Text.{str_eq, trim_space, atoi}
use waitinglist.Model.{Project}
use waitinglist.Http.Types.{
  Request, query_get, ParameterError, must_be_integer, must_be_at_least, must_be_at_most,
}

-- `AdminHandler`: whether it has an email notifier, and a digest sender.
pub record AdminHandler : Type 0 where
  pub projects : List Project
  pub has_notifier : Bool
  pub has_digest_sender : Bool

abbrev pub default_admin_list_limit : ℤ
default_admin_list_limit = pos 50

abbrev pub max_admin_list_limit : ℤ
max_admin_list_limit = pos 200

abbrev pub default_dashboard_days : ℤ
default_dashboard_days = pos 90

abbrev pub max_dashboard_days : ℤ
max_dashboard_days = pos 365

abbrev pub max_revoke_reason_len : ℕ
max_revoke_reason_len = 500

abbrev pub max_offset : ℤ
max_offset = pos (2 ^ 30)

pub data Parsed : Type 0 where
  value : ℤ → Parsed
  refused : ParameterError → Parsed

in_range : ℤ → ℤ → Option ℤ → Parsed
in_range min_v max_v none = refused must_be_integer
in_range min_v max_v (some n) =
    if ltb_ℤ n min_v
    then refused (must_be_at_least min_v)
    else if ltb_ℤ max_v n
    then refused (must_be_at_most max_v)
    else value n

-- `parseIntQuery`
unfoldable pub parse_int_query : Request → String → ℤ → ℤ → ℤ → Parsed
unfolding in_range
parse_int_query r key def min_v max_v =
    let raw = trim_space (query_get r key) in
    if str_eq raw "" then value def else in_range min_v max_v (atoi raw)

abbrev pub has_slug : String → Project → Bool
has_slug slug p = str_eq p.slug slug

-- `findProject`
abbrev pub find_project : AdminHandler → String → Option Project
find_project h slug = find_first (has_slug slug) h.projects

known : String → Option Project → Option String
known slug none = none
known slug (some _) = some slug

-- `resolveProjectFilter`: the empty slug stands for all projects, `none` for a refusal.
unfoldable pub resolve_project_filter : AdminHandler → Request → Option String
unfolding known
resolve_project_filter h r =
    let slug = trim_space (query_get r "project") in
    if str_eq slug "" then some "" else known slug (find_project h slug)
