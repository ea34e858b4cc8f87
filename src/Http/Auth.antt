-- ===== src/Http/Auth.antt =====
-- internal/handler/middleware.go and health.go: who reaches the admin routes, what is logged, and
-- the health probe.
pub mod Guard
use Prim.Native.String.{◌++◌ as append}
use waitinglist.Prelude.{ℕ, String, Bool, true, false, Option, none, some, if◌then◌else◌}
use waitinglist.Prelude.Text.{str_eq}
use waitinglist.Model.{Result, ok, err}
use waitinglist.Store.Monad.{driver}
use waitinglist.Http.Types.{Request, Response, no_body, health, write_json}
use waitinglist.Store.Action.{Action, reply, ◌>>=◌}

pub unauthorized : String → Response
unauthorized realm = record {
  status = 401;
  body = no_body;
  www_authenticate = some (append "Basic realm=\"" (append realm "\""));
}

module _ (matches_hash : String → String → Bool) where
  -- `matches_hash hash pass` is bcrypt.CompareHashAndPassword without an error. `next` is given the
  -- user name that the context carries.
  check_credentials :
      String
      → String
      → String
      → (String → Request → Action Response)
      → Option (String × String)
      → Request
      → Action Response
  unfolding unauthorized
  check_credentials username hash realm next none r = reply (unauthorized realm)
  check_credentials username hash realm next (some (user, pass)) r =
      if str_eq user username
      then if matches_hash hash pass then next username r else reply (unauthorized realm)
      else reply (unauthorized realm)

  -- `BasicAuthMiddleware`
  unfoldable pub basic_auth_middleware :
      String → String → String → (String → Request → Action Response) → Request → Action Response
  unfolding check_credentials
  basic_auth_middleware username hash realm next r =
      check_credentials username hash realm next r.basic_auth r

pub data LogLine : Type 0 where
  request_line : String → ℕ → LogLine

-- `LoggingMiddleware`: the answer, and the line that is logged, if any.
unfoldable pub logging_middleware :
    (Request → Action Response) → Request → Action (Response × Option LogLine)
logging_middleware next r = do
  answer ← next r
  if str_eq r.path "/healthz"
      then reply (answer, none)
      else reply (answer, some (request_line r.path answer.status))

pinged : Result (Unit {0}) → Response
pinged (ok _) = write_json 200 (health true)
pinged (err _) = write_json 503 (health false)

-- `HealthHandler.handle`
unfoldable pub handle_health : Action Response
unfolding pinged driver
handle_health = do ping ← driver; reply (pinged ping)
