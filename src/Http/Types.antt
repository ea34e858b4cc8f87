-- ===== src/Http/Types.antt =====
-- What the handlers read of a request and write in a response: internal/handler/response.go and the
-- request and response types of waitinglist.go, admin.go and health.go.
use waitinglist.Prelude.{ℕ, String, Bool, Option, none, List, [], ◌∷◌}
use waitinglist.Prelude.Int.{ℤ}
use waitinglist.Model.{
  Project, UserEntity, UserInfo, WaitingListEntry, WaitingListAdminRow, DayCount,
}

-- `addToWaitingListRequest`
pub record AddToWaitingListRequest : Type 0 where
  pub firstname : String
  pub lastname : String
  pub email : String

-- A request by what net/http and encoding/json give of it: `header` is Header.Get, `query` the
-- values of a key, `path_id` the wildcard {id}, and a body is absent where decoding fails.
pub record Request : Type 0 where
  pub path : String
  pub header : String → String
  pub host : String
  pub remote_addr : String
  pub query : String → List String
  pub path_id : String
  pub basic_auth : Option (String × String)
  pub add_body : Option AddToWaitingListRequest
  pub revoke_body : Option String

-- `r.URL.Query().Get(key)`
abbrev pub first_or_empty : List String → String
first_or_empty [] = ""
first_or_empty (v ∷ _) = v

abbrev pub query_get : Request → String → String
query_get r key = first_or_empty (r.query key)

-- `dashboardResponse`
pub record DashboardResponse : Type 0 where
  pub waiting_list : ℕ
  pub with_access : ℕ
  pub total : ℕ
  pub enlistments_by_day : List DayCount
  pub window_days : ℤ

-- The messages of `parseIntQuery`, without the key that they begin with.
pub data ParameterError : Type 0 where
  must_be_integer : ParameterError
  must_be_at_least must_be_at_most : ℤ → ParameterError

pub data Body : Type 0 where
  no_body : Body
  error message : String → Body
  bad_parameter : String → ParameterError → Body
  added : UserEntity → WaitingListEntry → Body
  entries : List WaitingListEntry → Body
  user_infos : List UserInfo → Body
  user : UserEntity → Body
  dashboard : DashboardResponse → Body
  users_page : List UserEntity → ℤ → ℤ → Body
  waitlist_page : List WaitingListAdminRow → ℤ → ℤ → Body
  projects : List Project → Body
  sent_to : ℕ → Body
  health : Bool → Body

-- `www_authenticate` is the header of that name, if it is set.
pub record Response : Type 0 where
  pub status : ℕ
  pub body : Body
  pub www_authenticate : Option String

-- `WriteJSON`
abbrev pub write_json : ℕ → Body → Response
write_json status body = record { status = status; body = body; www_authenticate = none }

-- `WriteError`
abbrev pub write_error : ℕ → String → Response
write_error status text = write_json status (error text)
