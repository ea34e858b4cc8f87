-- ===== src/Http/Tenant.antt =====
-- internal/handler/tenant.go: which project a request belongs to.
pub mod Routing
use Prim.Native.String.{◌++◌ as append}
use waitinglist.Prelude.{String, Option, none, some, List, [], ◌∷◌, if◌then◌else◌}
use waitinglist.Prelude.Dict.{Dict, lookup, insert}
use waitinglist.Prelude.Text.{str_eq}
use waitinglist.Model.{Project}
use waitinglist.Http.Types.{Request, Response, write_error}
use waitinglist.Store.Action.{Action, reply}
use waitinglist.Http.Net.{strip_port}

-- The lock is not modelled: `projects` is read and replaced as a whole.
pub record ProjectResolver : Type 0 where
  pub header_name : String
  pub default_slug : String
  pub host_mapping : Dict String
  pub projects : Dict Project

-- the loop `m[projects[i].Slug] = &projects[i]`
pub by_slug : Dict Project → List Project → Dict Project
by_slug m [] = m
by_slug m (p ∷ ps) = by_slug (insert p.slug p m) ps

-- `NewProjectResolver`
unfoldable pub new_project_resolver : String → String → Dict String → List Project → ProjectResolver
unfolding by_slug
new_project_resolver header_name default_slug host_mapping projects = record {
  header_name = header_name;
  default_slug = default_slug;
  host_mapping = host_mapping;
  projects = by_slug [] projects;
}

-- `Reload`
unfoldable pub reload : List Project → ProjectResolver → ProjectResolver
unfolding by_slug
reload projects pr = record pr { projects = by_slug [] projects }

-- `originalHost`
unfoldable pub original_host : Request → String
original_host r =
    if str_eq (r.header "X-Forwarded-Host") "" then r.host else r.header "X-Forwarded-Host"

abbrev pub or_empty : Option String → String
or_empty none = ""
or_empty (some s) = s

slug_by_host : ProjectResolver → Request → String
unfolding original_host
slug_by_host pr r = or_empty (lookup (strip_port (original_host r)) pr.host_mapping)

abbrev if_empty : String → String → String
if_empty s d = if str_eq s "" then d else s

-- The slug by header, else by host, else by default; empty if nothing names one.
unfoldable pub resolve_slug : ProjectResolver → Request → String
unfolding slug_by_host
resolve_slug pr r =
    if_empty (if_empty (r.header pr.header_name) (slug_by_host pr r)) pr.default_slug

abbrev serve_project :
    Option Project
    → String
    → (Option Project → Request → Action Response)
    → Request
    → Action Response
serve_project none slug next r = reply (write_error 400 (append "unknown project: " slug))
serve_project (some p) slug next r = next (some p) r

-- `Middleware`: `next` is given the project that the context carries.
unfoldable pub middleware :
    ProjectResolver → (Option Project → Request → Action Response) → Request → Action Response
middleware pr next r =
    let slug = resolve_slug pr r in
    if str_eq slug ""
    then reply (write_error 400 "project identification required")
    else serve_project (lookup slug pr.projects) slug next r
