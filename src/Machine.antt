-- ===== src/Machine.antt =====
-- The program as a whole, as cmd/server/main.go puts it together: requests and scheduled tasks, each
-- on the tables that the ones before it left, in any order.
pub mod History
pub mod Tenants
pub mod Databases
pub mod Interleaving
use waitinglist.Prelude.{refl, true, ℕ, String, Bool, Option, List, ◌≡◌, false, subst, sym}
use waitinglist.Model.{Project, Time}
use waitinglist.Store.{World}
use waitinglist.Notifier.Send.{send_digest}
use waitinglist.Notifier.Send.Reads.{send_digest-Keeps}
use waitinglist.Http.Types.{Request}
use waitinglist.Http.Enlist.{handle_add, handle_get_all, handle_get_users_by_email}
use waitinglist.Http.Enlist.Safety.{handle_add-Valid}
use waitinglist.Http.Admin.Params.{AdminHandler}
use waitinglist.Http.Admin.Access.{handle_grant, handle_revoke, handle_delete_waitlist}
use waitinglist.Http.Admin.Access.Safety.{handle_revoke-Valid, handle_delete_waitlist-Valid}
use waitinglist.Http.Admin.Access.Granting.{handle_grant-Valid}
use waitinglist.Http.Admin.Lists.{handle_dashboard, handle_list_with_access, handle_list_waitlist}
use waitinglist.Http.Admin.Digest.{handle_send_digest}
use waitinglist.Http.Enlist.ReadOnly.{handle_get_all-Keeps, handle_get_users_by_email-Keeps}
use waitinglist.Http.Admin.Lists.ReadOnly.{
  handle_dashboard-Keeps, handle_list_with_access-Keeps, handle_list_waitlist-Keeps,
}
use waitinglist.Http.Admin.Digest.ReadOnly.{handle_send_digest-Keeps}
use waitinglist.Waitlist.Scheduler.{Settings, process_project}
use waitinglist.Waitlist.Scheduler.Outcome.{process_project-Valid}
use waitinglist.Waitlist.Digest.{process_digest_project}
use waitinglist.Waitlist.Digest.Outcome.{process_digest_project-Valid}
use waitinglist.Invariant.{IsValid, IsValid-empty, empty_db}
use waitinglist.Repository.{Repository}
use waitinglist.Repository.Keys.{KeyReader, HasKeys-empty, Valid}
use waitinglist.Repository.Contract.{Contract}

-- One thing that the program does.
pub data Event : Type 0 where
  add : Option Project → Request → Event
  get_all users_by_email : Option Project → Request → Event
  grant : AdminHandler → Request → Event
  revoke : String → Request → Event
  delete_waitlist : Request → Event
  dashboard list_with_access list_waitlist send_digest_now : AdminHandler → Request → Event
  schedule : Settings → Project → Event
  digest : Project → Event

abbrev snd_of : {A : Type 0} → A × World → World
snd_of r = r.1

module _ ⦃repo : Repository⦄ where
  pub perform : Event → World → World
  perform (add p r) w = snd_of (handle_add p r w)
  perform (get_all p r) w = snd_of (handle_get_all p r w)
  perform (users_by_email p r) w = snd_of (handle_get_users_by_email p r w)
  perform (grant h r) w = snd_of (handle_grant h r w)
  perform (revoke admin r) w = snd_of (handle_revoke admin r w)
  perform (delete_waitlist r) w = snd_of (handle_delete_waitlist r w)
  perform (dashboard h r) w = snd_of (handle_dashboard h r w)
  perform (list_with_access h r) w = snd_of (handle_list_with_access h r w)
  perform (list_waitlist h r) w = snd_of (handle_list_waitlist h r w)
  perform (send_digest_now h r) w = snd_of (handle_send_digest h r w)
  perform (schedule cfg p) w = snd_of (process_project cfg p w)
  perform (digest p) w = snd_of (process_digest_project send_digest p w)

module _ ⦃repo : Repository⦄ ⦃c : Contract repo⦄ where
  pub perform-Valid : (e : Event) (w : World) → Valid c.key w.db → Valid c.key (perform e w).db
  unfolding perform
  perform-Valid (add p r) w v = (handle_add-Valid p r).at w v
  perform-Valid (get_all p r) w v = (handle_get_all-Keeps {P = Valid c.key} p r).at w v
  perform-Valid (users_by_email p r) w v =
      (handle_get_users_by_email-Keeps {P = Valid c.key} p r).at w v
  perform-Valid (grant h r) w v = (handle_grant-Valid h r).at w v
  perform-Valid (revoke admin r) w v = (handle_revoke-Valid admin r).at w v
  perform-Valid (delete_waitlist r) w v = (handle_delete_waitlist-Valid r).at w v
  perform-Valid (dashboard h r) w v = (handle_dashboard-Keeps {P = Valid c.key} h r).at w v
  perform-Valid (list_with_access h r) w v =
      (handle_list_with_access-Keeps {P = Valid c.key} h r).at w v
  perform-Valid (list_waitlist h r) w v = (handle_list_waitlist-Keeps {P = Valid c.key} h r).at w v
  perform-Valid (send_digest_now h r) w v = (handle_send_digest-Keeps {P = Valid c.key} h r).at w v
  perform-Valid (schedule cfg p) w v = (process_project-Valid cfg p).at w v
  perform-Valid (digest p) w v =
      (process_digest_project-Valid send_digest p (λ P. send_digest-Keeps {P = P})).at w v

-- One step: an event, on a repository that keeps the contract and reads keys as the database does, or
-- a change of what the environment will answer, which leaves the tables. The repository of an event
-- knows when its transaction begins, so it may be another one each time.
pub data Step (key : KeyReader) (w : World) : World → Type 1 where
  happens :
      (repo : Repository) (c : Contract repo)
      → c.key ≡ key
      → (e : Event) → Step key w (perform ⦃repo = repo⦄ e w)
  environment :
      (faults : List Bool) (clock : ℕ → Time) (uuids : ℕ → String)
      → Step key w (record w { faults = faults; clock = clock; uuids = uuids })

-- What can be reached from a fresh database.
pub data Reachable (key : KeyReader) : World → Type 1 where
  fresh : (w : World) → w.db ≡ empty_db → Reachable key w
  next : {w w' : World} → Reachable key w → Step key w w' → Reachable key w'

pub Step-Valid : {key : KeyReader} {w w' : World} → Step key w w' → Valid key w.db → Valid key w'.db
Step-Valid {w = w} (happens repo c same e) v =
    subst (λ k. Valid k (perform ⦃repo = repo⦄ e w).db) same
      (perform-Valid ⦃repo = repo⦄ ⦃c = c⦄ e w (subst (λ k. Valid k w.db) (sym same) v))
Step-Valid (environment faults clock uuids) v = v

pub Reachable-Valid : (key : KeyReader) (w : World) → Reachable key w → Valid key w.db
Reachable-Valid key w (fresh _ e) = subst (Valid key) (sym e) (IsValid-empty, HasKeys-empty key)
Reachable-Valid key w (next r s) = Step-Valid s (Reachable-Valid key _ r)

-- Whatever is requested of the program and whenever its tasks run, from a fresh database on, over
-- any repositories that keep the contract, with the driver failing anywhere and any clock: the tables
-- are valid. Keys are unique, the list names known users of its project, the audit columns agree, and
-- nobody who waits has access.
pub Reachable-IsValid : (key : KeyReader) (w : World) → Reachable key w → IsValid w.db
Reachable-IsValid key w r = (Reachable-Valid key w r).0

-- the requests that only ask
abbrev pub is_read : Event → Bool
is_read (add _ _) = false
is_read (grant _ _) = false
is_read (revoke _ _) = false
is_read (delete_waitlist _) = false
is_read (schedule _ _) = false
is_read (digest _) = false
is_read _ = true

module _ ⦃repo : Repository⦄ ⦃c : Contract repo⦄ where
  -- A request that only asks (the lists, the emails, the dashboard, the digest that is sent at once)
  -- changes no table, whatever it answers and wherever the driver fails.
  pub perform-reads : (e : Event) (w : World) → is_read e ≡ true → (perform e w).db ≡ w.db
  unfolding perform
  perform-reads (add _ _) w h = absurd (cc)
  perform-reads (grant _ _) w h = absurd (cc)
  perform-reads (revoke _ _) w h = absurd (cc)
  perform-reads (delete_waitlist _) w h = absurd (cc)
  perform-reads (schedule _ _) w h = absurd (cc)
  perform-reads (digest _) w h = absurd (cc)
  perform-reads (get_all p r) w h = (handle_get_all-Keeps {P = λ db. db ≡ w.db} p r).at w refl
  perform-reads (users_by_email p r) w h =
      (handle_get_users_by_email-Keeps {P = λ db. db ≡ w.db} p r).at w refl
  perform-reads (dashboard hd r) w h = (handle_dashboard-Keeps {P = λ db. db ≡ w.db} hd r).at w refl
  perform-reads (list_with_access hd r) w h =
      (handle_list_with_access-Keeps {P = λ db. db ≡ w.db} hd r).at w refl
  perform-reads (list_waitlist hd r) w h =
      (handle_list_waitlist-Keeps {P = λ db. db ≡ w.db} hd r).at w refl
  perform-reads (send_digest_now hd r) w h =
      (handle_send_digest-Keeps {P = λ db. db ≡ w.db} hd r).at w refl
