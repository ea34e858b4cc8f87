-- ===== src/Tests/Parts.antt =====
-- The theorems on configuration and on the parts of the repositories at concrete inputs.
use waitinglist.Prelude.{
  ◌*◌, ◌≡◌, refl, Bool, true, false, ◌&&◌, none, some, [], ◌∷◌, here, String, arith, ◌≤◌, ◌/◌,
  if◌then◌else◌,
}
use waitinglist.Prelude.Int.{pos}
use waitinglist.Prelude.Dict.{lookup}
use waitinglist.Prelude.Text.{str_eq, trim_space}
use waitinglist.Model.Clock.{hour, day}
use waitinglist.Sqlite.Users.Lists.{enlistments_by_day}
use waitinglist.Sqlite.Users.Series.{IsSeries, enlistments_by_day-IsSeries}
use waitinglist.Sqlite.Scheduler.{upsert}
use waitinglist.Sqlite.Scheduler.Stamps.{stored, upsert-stored}
use waitinglist.Config.Projects.{ProjectDefinition, validate, build_host_mapping}
use waitinglist.Config.Projects.Hosts.{validate-hosts}
use waitinglist.Config.Load.{Config, load, loaded}
use waitinglist.Http.Types.{Request}
use waitinglist.Http.Net.{client_ip, strip_port}
use waitinglist.Http.Net.Origin.{IsOrigin, client_ip-IsOrigin}
use waitinglist.Http.Tenant.{original_host}
use waitinglist.Startup.{Reaches, default-served}
use waitinglist.Tests.Data.{acme, stamp, request, new_world, next_handler, busy}

late : 365 ≤ busy.clock 1 / day
late = omega arith

enlistments_by_day-IsSeries_example :
    IsSeries "acme" (pos 7) busy.db busy.clock 0 (enlistments_by_day "acme" (pos 7) busy).0
enlistments_by_day-IsSeries_example = enlistments_by_day-IsSeries "acme" (pos 7) busy late

upsert-stored_example :
    (stored "acme" "digest_last_success" (upsert "acme" "digest_last_success" 7 (stamp ∷ [])) ≡ 7)
    × ((s k : String)
        → (str_eq "acme" s && str_eq "digest_last_success" k) ≡ false
        → stored s k (upsert "acme" "digest_last_success" 7 (stamp ∷ [])) ≡ stored s k (stamp ∷ []))
upsert-stored_example = upsert-stored "acme" "digest_last_success" 7 (stamp ∷ [])

abbrev definition : ProjectDefinition
definition = record {
  name = "Acme";
  url = "https://acme.test";
  host_mapping = "wait.acme.test";
  email = acme.email;
  digest = acme.digest;
  entry_batch_size = none;
  entry_window_interval = "";
  scheduler_disabled = false;
}

abbrev raw : Config
raw = record {
  port = pos 0;
  database = record { url = ""; username = ""; password = ""; migrations_dir = "" };
  entry_batch_size = pos 0;
  entry_window_interval = pos 0;
  scheduler_disabled = false;
  waitlist_check_interval = pos 0;
  projects = record {
    header_name = "";
    default_slug = "acme";
    definitions = ("acme", definition) ∷ [];
  };
}

abbrev filled : Config
filled = record {
  port = pos 8080;
  database = record {
    url = "postgres://localhost:5432/waitinglist?sslmode=disable";
    username = "";
    password = "";
    migrations_dir = "migrations";
  };
  entry_batch_size = pos 25;
  entry_window_interval = pos (30 * hour);
  scheduler_disabled = false;
  waitlist_check_interval = pos hour;
  projects = record {
    header_name = "X-Project-ID";
    default_slug = "acme";
    definitions = ("acme", definition) ∷ [];
  };
}

abbrev all : String → Bool
all _ = true

raw_loads : load all all raw ≡ loaded filled
unfolding load validate
raw_loads = refl

valid : validate all all filled.projects ≡ none
unfolding validate
valid = refl

validate-hosts_example : lookup "wait.acme.test" (build_host_mapping filled.projects) ≡ some "acme"
validate-hosts_example =
    validate-hosts all all filled.projects "acme" definition valid (here refl) refl

unmapped : lookup (strip_port (original_host request)) (build_host_mapping filled.projects) ≡ none
unfolding build_host_mapping strip_port original_host
unmapped = refl

default-served_example : Reaches all all (λ _. none) filled next_handler request new_world "acme"
default-served_example =
    default-served all all (λ _. none) raw filled next_handler request new_world raw_loads refl
      unmapped

abbrev proxied : Request
proxied = record request {
  header = λ k. if str_eq k "X-Forwarded-For" then " , 203.0.113.7, 10.0.0.1" else "";
}

client_ip-IsOrigin_example : IsOrigin proxied "203.0.113.7"
unfolding client_ip trim_space
client_ip-IsOrigin_example = client_ip-IsOrigin proxied
