-- ===== src/Tests/Data.antt =====
-- A project, a request, a world with one user who waits, and what the tests run on them.
use waitinglist.Prelude.{
  ℕ, ◌+◌, ◌*◌, String, true, false, Option, none, some, [], ◌∷◌, ◌==◌, if◌then◌else◌,
}
use waitinglist.Prelude.Int.{ℤ, pos}
use waitinglist.Model.{Project, UserEntity, WaitingListEntry}
use waitinglist.Model.Clock.{hour, day}
use waitinglist.Store.{World, WaitingRow, SchedulerRow}
use waitinglist.Store.Action.{Action, reply}
use waitinglist.Invariant.{IsValid-empty, empty_db}
use waitinglist.Repository.Keys.{Valid, HasKeys-empty}
use waitinglist.Repository.OverSqlite.{sqlite, sqlite_contract}
use waitinglist.Http.Types.{AddToWaitingListRequest, Request, Response, write_json, no_body}
use waitinglist.Http.Enlist.{handle_add}
use waitinglist.Http.Enlist.Safety.{handle_add-Valid}
use waitinglist.Http.Admin.Params.{AdminHandler}
use waitinglist.Waitlist.Scheduler.{Settings}

abbrev pub acme : Project
acme = record {
  slug = "acme";
  name = "Acme";
  url = "https://acme.test";
  email = record { from = "hi@acme.test"; subject = "Welcome"; template_path = "" };
  digest = record {
    recipients = "ops@acme.test" ∷ [];
    schedule = "@daily";
    from = "";
    subject = "";
  };
  entry_batch_size = none;
  entry_window_interval = none;
  waitlist_check_interval = none;
  scheduler_disabled = false;
}

abbrev pub form : AddToWaitingListRequest
form = record { firstname = "Ada"; lastname = "Lovelace"; email = "ada@acme.test" }

abbrev pub request : Request
request = record {
  path = "/waitinglist";
  header = λ _. "";
  host = "acme.test:443";
  remote_addr = "192.0.2.1:1234";
  query = λ _. "30" ∷ [];
  path_id = " u0 ";
  basic_auth = some ("root", "secret");
  add_body = some form;
  revoke_body = some " spam ";
}

-- A later reading of the clock is an hour later.
abbrev pub new_world : World
new_world = record {
  db = empty_db;
  faults = [];
  clock = λ n. 1000 * day + n * hour;
  ticks = 0;
  uuids = λ n. if n == 0 then "u0" else "e0";
  drawn = 0;
  outbox = [];
}

-- the world after one sign-up
abbrev pub signed_up : World
signed_up = (handle_add (some acme) request new_world).1

-- the same, long after
abbrev pub ripe : World
ripe = record signed_up { clock = λ _. 2000 * day }

-- a fresh database holds
pub fresh-Valid : Valid sqlite_contract.key empty_db
fresh-Valid = (IsValid-empty, HasKeys-empty sqlite_contract.key)

pub signed_up-Valid : Valid sqlite_contract.key signed_up.db
signed_up-Valid = (handle_add-Valid (some acme) request).at new_world fresh-Valid

abbrev pub ada : UserEntity
ada = record {
  id = "u0";
  project_slug = "acme";
  firstname = "Ada";
  lastname = "Lovelace";
  email = "ada@acme.test";
  has_access = true;
  created_at = 900 * day;
  ip_address = none;
  access_granted_at = some (950 * day);
  access_granted_by = some "scheduler";
  access_revoked_at = none;
  access_revoked_by = none;
  access_revoke_reason = none;
}

abbrev pub row : String → ℕ → ℤ → WaitingRow
row id created_at weight = record {
  id = id;
  user_id = id;
  created_at = created_at;
  weight = weight;
  project_slug = "acme";
}

-- Of two rows the later one weighs more, and comes first.
abbrev pub light : WaitingRow
light = row "e0" (900 * day) (pos 0)

abbrev pub heavy : WaitingRow
heavy = row "e1" (901 * day) (pos 48)

abbrev pub stamp : SchedulerRow
stamp = record { key = "waitlist_last_success"; value = 1000 * day; project_slug = "acme" }

abbrev pub busy : World
busy = record new_world {
  db = record {
    user_entity = ada ∷ [];
    waiting_list = light ∷ heavy ∷ [];
    scheduler_state = stamp ∷ [];
  };
}

abbrev pub admin : AdminHandler
admin = record { projects = acme ∷ []; has_notifier = true; has_digest_sender = true }

abbrev pub settings : Settings
settings = record {
  entry_batch_size = pos 25;
  entry_window_interval = pos (30 * hour);
  disabled = false;
  has_notifier = true;
}

abbrev pub entry : WaitingListEntry
entry = record {
  id = "e0";
  project_slug = "acme";
  user_id = "u0";
  created_at = 900 * day;
  weighted_created_at = 900 * day;
}

-- a handler that answers at once
abbrev pub next_handler : Option Project → Request → Action Response
next_handler p r = reply (write_json 200 no_body)
