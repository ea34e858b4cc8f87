-- ===== src/Config/Load.antt =====
-- internal/config/config.go: `Load` behind the two providers, and `resolveHealthCheckPort` of
-- cmd/server/main.go.
use waitinglist.Prelude.{◌*◌, String, Bool, Option, none, some, ◌==◌, if◌then◌else◌}
use waitinglist.Prelude.Int.{ℤ, pos, ltb_ℤ}
use waitinglist.Prelude.Text.{str_eq, atoi}
use waitinglist.Model.{Duration}
use waitinglist.Model.Clock.{hour}
use waitinglist.Config.Projects.{ProjectsConfig, ConfigError, validate}

pub record DatabaseConfig : Type 0 where
  pub url : String
  pub username : String
  pub password : String
  pub migrations_dir : String

pub record Config : Type 0 where
  pub port : ℤ
  pub database : DatabaseConfig
  pub entry_batch_size : ℤ
  pub entry_window_interval : Duration
  pub scheduler_disabled : Bool
  pub waitlist_check_interval : Duration
  pub projects : ProjectsConfig

abbrev pub default_port : ℤ
default_port = pos 8080

abbrev pub default_database_url : String
default_database_url = "postgres://localhost:5432/waitinglist?sslmode=disable"

abbrev pub or_if_zero : ℤ → ℤ → ℤ
or_if_zero (pos n) d = if n == 0 then d else pos n
or_if_zero n d = n

abbrev pub or_if_empty : String → String → String
or_if_empty s d = if str_eq s "" then d else s

-- The tests behind `Unmarshal`: what is still zero takes its default.
unfoldable pub with_defaults : Config → Config
with_defaults c = record {
  port = or_if_zero c.port default_port;
  database = record c.database {
    url = or_if_empty c.database.url default_database_url;
    migrations_dir = or_if_empty c.database.migrations_dir "migrations";
  };
  entry_batch_size = or_if_zero c.entry_batch_size (pos 25);
  entry_window_interval = or_if_zero c.entry_window_interval (pos (30 * hour));
  scheduler_disabled = c.scheduler_disabled;
  waitlist_check_interval = or_if_zero c.waitlist_check_interval (pos hour);
  projects = record c.projects {
    header_name = or_if_empty c.projects.header_name "X-Project-ID";
    default_slug = or_if_empty c.projects.default_slug "default";
  };
}

pub data Loaded : Type 0 where
  loaded : Config → Loaded
  invalid : ConfigError → Loaded

unfoldable pub checked : Option ConfigError → Config → Loaded
checked none c = loaded c
checked (some e) c = invalid e

module _ (parses accessible : String → Bool) where
  -- `Load`, from what the file and the environment were read into.
  unfoldable pub load : Config → Loaded
  unfolding checked with_defaults
  load c = checked (validate parses accessible (with_defaults c).projects) (with_defaults c)

port_or_default : Option ℤ → ℤ
port_or_default none = default_port
port_or_default (some n) = if ltb_ℤ (pos 0) n then n else default_port

-- `resolveHealthCheckPort`, at the value of WL_PORT
unfoldable pub resolve_health_check_port : String → ℤ
unfolding port_or_default
resolve_health_check_port v = if str_eq v "" then default_port else port_or_default (atoi v)
