-- ===== src/Tests/Servers.antt =====
-- A server, the sign-up over it, and the theorems on PostgreSQL and on courses at concrete inputs.
use Prim.Native.String.{len}
use waitinglist.Prelude.{
  ◌≡◌, refl, ℕ, String, Bool, true, false, Option, none, some, List, [], ◌∷◌, In, here, there,
  not-In-nil, ◌==◌, if◌then◌else◌, take, drop, subst, sym, ◌∙◌,
}
use mathlib.Core.Option.{some-injective}
use waitinglist.Prelude.Int.{pos}
use waitinglist.Prelude.Reordered.{Reordered-refl}
use waitinglist.Model.{UserEntity}
use waitinglist.Store.{World}
use waitinglist.Sqlite.Users.{valid_grant_source}
use waitinglist.Invariant.{IsAudited}
use waitinglist.Postgres.Server.{Server, IsServer}
use waitinglist.Postgres.Users.{get_by_id}
use waitinglist.Postgres.Waiting as OnPostgres
use waitinglist.Postgres.Waiting.{add}
use waitinglist.Postgres.Pages.{IsBatch, get_with_offset_limit-IsBatch}
use waitinglist.Postgres.Errors.{LookedUp, get_by_id-LookedUp}
use waitinglist.Postgres.Refusals.{Added, add-Added}
use waitinglist.Sqlite.Waiting as OnSqlite
use waitinglist.Repository.Keys.{Valid}
use waitinglist.Repository.OverPostgres.{postgres}
use waitinglist.Repository.OverSqlite.{sqlite, sqlite_contract, sqlite_contract-key, text_key}
use waitinglist.Http.Enlist.{handle_add}
use waitinglist.Machine.{Event, perform}
use waitinglist.Machine.Databases.{run_postgres, run_postgres-Valid}
use waitinglist.Machine.History.{Spares, at_first, goes_on, access-lasts}
use waitinglist.Postgres.Users.Lists.{matches_email}
use waitinglist.Postgres.Users.Lists.Filter.{contains, is_plain, matches_email-contains}
use waitinglist.Waitlist.Scheduler.Gathering.{gather}
use waitinglist.Machine.Interleaving.{interrupted, perform_all, interrupted-outcome}
use waitinglist.Waitlist.Scheduler.Outcome.{Interrupted}
use waitinglist.Machine.Tenants.{others, perform-others}
use waitinglist.Tests.Data.{
  ada, acme, request, new_world, busy, ripe, signed_up-Valid, settings, admin,
}

-- The uuids are the texts of two characters.
abbrev server : Server
server = record {
  uuid = λ t. if len t == 2 then some t else none;
  inet = λ t. some t;
  micros = λ t. t;
  collate = λ a b. true;
  lower = λ c. c;
  scan_users = λ us. us;
  scan_waiting = λ rs. rs;
}

read_again :
    (b : Bool) (t c : String)
    → b ≡ (len t == 2)
    → (if b then some t else none) ≡ some c
    → (if len c == 2 then some c else none) ≡ some c
read_again true t c b e =
    let same : t ≡ c = some-injective _ _ e in
    subst (λ x. (if len x == 2 then some x else none) ≡ some x) same (rw (← b) refl)
read_again false t c b e = absurd (cc)

server-IsServer : IsServer server
server-IsServer = record {
  users_once = Reordered-refl;
  waiting_once = Reordered-refl;
  canonical = λ t c. read_again (len t == 2) t c refl;
  collate_order = record { total = λ a b h. refl; trans = λ a b c h k. refl };
}

abbrev noon : World → ℕ
noon w = w.clock w.ticks

-- the sign-up succeeds on PostgreSQL too
handle_add_status_on_postgres :
    (handle_add ⦃repo = postgres server noon⦄ (some acme) request new_world).0.status ≡ 201
unfolding handle_add waitinglist.Http.Enlist.validate_waiting_list_request
    waitinglist.Prelude.Text.trim_space waitinglist.Prelude.Text.contains_code
    waitinglist.Store.Action.◌>>=◌ waitinglist.Store.Action.begin_tx waitinglist.Store.Monad.◌>>=◌
    waitinglist.Postgres.Users.get_by_email_tx waitinglist.Postgres.Users.create_tx
    waitinglist.Postgres.Waiting.add waitinglist.Store.Action.commit
handle_add_status_on_postgres = refl

run_postgres-Valid_example :
    Valid server.uuid
      (run_postgres server ((Event.add (some acme) request, noon) ∷ []) new_world).db
run_postgres-Valid_example =
    run_postgres-Valid server server-IsServer ((Event.add (some acme) request, noon) ∷ []) new_world
      refl

get_by_id-LookedUp_example : LookedUp server busy.db "not" (get_by_id server "not" busy).0
get_by_id-LookedUp_example = get_by_id-LookedUp server server-IsServer "not" busy

add-Added_example : Added server busy.db "u0" "u0" (add server 7 "acme" "u0" busy).0
add-Added_example = add-Added server 7 "acme" "u0" busy

get_with_offset_limit-IsBatch_example :
    IsBatch busy.db "acme"
      (pos 0)
      (pos 1)
      (OnPostgres.get_with_offset_limit server "acme" none (some (pos 1)) busy).0
get_with_offset_limit-IsBatch_example =
    get_with_offset_limit-IsBatch server server-IsServer "acme" none (some (pos 1)) busy

ada_is_plain : is_plain "ada" ≡ true
unfolding is_plain
ada_is_plain = refl

matches_email-contains_example :
    matches_email server "ada" "ada@acme.test" ≡ contains server.lower "ada" "ada@acme.test"
matches_email-contains_example = matches_email-contains server "ada" "ada@acme.test" ada_is_plain

-- an admin revokes the user, and asks for the dashboard
abbrev meanwhile : List Event
meanwhile = Event.revoke "root" request ∷ Event.dashboard admin request ∷ []

interrupted-outcome_example :
    Interrupted
      (perform_all meanwhile (gather settings acme ripe).1).db
      "acme"
      (gather settings acme ripe).0
      (interrupted settings acme meanwhile ripe).db
interrupted-outcome_example = interrupted-outcome settings acme meanwhile ripe refl signed_up-Valid

perform-others_example :
    others "acme" (perform (Event.schedule settings acme) ripe).db ≡ others "acme" ripe.db
perform-others_example =
    perform-others (Event.schedule settings acme) "acme" ripe refl signed_up-Valid

-- the world with one user, who has access
abbrev one_user : World
one_user = record new_world {
  db = record { user_entity = ada ∷ []; waiting_list = []; scheduler_state = [] };
}

only_ada : {u : UserEntity} → In u (ada ∷ []) → u ≡ ada
only_ada (here e) = e
only_ada (there m) = absurd (not-In-nil m)

ada-IsAudited : IsAudited ada
ada-IsAudited = record {
  revoke_pair = refl;
  source = λ s e. subst (λ t. valid_grant_source t ≡ true) (some-injective "scheduler" s e) refl;
  dated = λ e. refl;
  attributed = λ e. refl;
  unrevoked = λ e. refl;
}

one_user-Valid : Valid text_key one_user.db
one_user-Valid = (
  record {
    user_key = λ u v mu mv e. only_ada mu ∙ sym (only_ada mv);
    address_key = λ u v mu mv e f. only_ada mu ∙ sym (only_ada mv);
    entry_key = λ r s m. absurd (not-In-nil m);
    waiting_key = λ r s m. absurd (not-In-nil m);
    waiting_known = λ r m. absurd (not-In-nil m);
    waiting_no_access = λ u r mu mr. absurd (not-In-nil mr);
    waiting_project = λ u r mu mr. absurd (not-In-nil mr);
    audited = λ u m. subst IsAudited (sym (only_ada m)) ada-IsAudited;
  },
  record { user = λ u m. refl; entry = λ r m. refl },
)

-- a sign-up of the same address, which revokes nobody
abbrev later : World
later = perform (Event.add (some acme) request) one_user

spared : Spares text_key "u0" one_user later
spared =
    goes_on at_first sqlite sqlite_contract sqlite_contract-key (Event.add (some acme) request)
      (λ e. absurd (cc))

access-lasts_example :
    (v : UserEntity) × In v later.user_entity
    × (v.id ≡ "u0")
    × (v.project_slug ≡ "acme")
    × (v.email ≡ "ada@acme.test")
    × (v.has_access ≡ true)
access-lasts_example =
    access-lasts text_key one_user later ada one_user-Valid (here refl) refl spared
