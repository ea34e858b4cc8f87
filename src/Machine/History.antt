-- ===== src/Machine/History.antt =====
-- Over any course of the program: no user is lost, and access lasts until it is revoked.
use waitinglist.Prelude.{
  ◌≡◌, ◌≢◌, refl, sym, ap, ◌∙◌, subst, ℕ, String, Bool, true, Option, some, none, List, In, inl,
  inr, [], ◌∷◌,
}
use waitinglist.Prelude.Text.{trim_space, str_eq_sound}
use waitinglist.Model.{Project, Time, UserEntity}
use waitinglist.Store.{Db, World}
use waitinglist.Store.Action.{reply}
use waitinglist.Notifier.Send.{send_digest}
use waitinglist.Notifier.Send.Reads.{send_digest-Keeps}
use waitinglist.Http.Types.{Request, Response}
use waitinglist.Http.Enlist.{handle_add}
use waitinglist.Http.Enlist.Safety.{handle_add-Extends}
use waitinglist.Http.Enlist.Outcome.{Extends}
use waitinglist.Http.Admin.Access.{handle_grant, handle_revoke, handle_delete_waitlist}
use waitinglist.Http.Admin.Access.Safety.{handle_revoke-Keeps, handle_delete_waitlist-Keeps}
use waitinglist.Http.Admin.Access.Granting.{GrantOutcome, handle_grant-outcome}
use waitinglist.Sqlite.Rows.{update_where}
use waitinglist.Sqlite.Users.{has_id, grant_row, revoke_row}
use waitinglist.Invariant.Grant.{listed}
use waitinglist.Invariant.Lasting.{Still, Lasting, Lasting-refl, Lasting-snoc, Lasting-update}
use waitinglist.Waitlist.Scheduler.{user_ids}
use waitinglist.Waitlist.Scheduler.Outcome.{RoundOutcome, process_project-outcome, batch_in}
use waitinglist.Waitlist.Digest.{Sender}
use waitinglist.Waitlist.Digest.Outcome.{DigestOutcome, process_digest_project-outcome, stamped}
use waitinglist.Repository.{Repository}
use waitinglist.Repository.Keys.{KeyReader, Valid}
use waitinglist.Repository.Contract.{Contract}
use waitinglist.Machine.{Event, perform, perform-reads, Step-Valid, is_read, happens}

-- the user whom the event may revoke
abbrev pub revoked_by : KeyReader → Event → Option String
revoked_by key (Event.revoke admin r) = key (trim_space r.path_id)
revoked_by key _ = none

module _ ⦃repo : Repository⦄ ⦃c : Contract repo⦄ where
  module _ {lost : Option String} where
    -- the users of tables that are known to be these
    Lasting-at :
        {before : List UserEntity} {db target : Db}
        → db ≡ target
        → Lasting lost before target.user_entity
        → Lasting lost before db.user_entity
    Lasting-at {before = before} same h =
        subst (Lasting lost before) (sym (ap (λ (d : Db). d.user_entity) same)) h

    Extends-Lasting :
        {slug : String} {before db : Db}
        → Extends slug before db
        → Lasting lost before.user_entity db.user_entity
    Extends-Lasting {before = before} (inl same) = Lasting-at same (Lasting-refl before.user_entity)
    Extends-Lasting {before = before} (inr (r, own, inl same)) =
        Lasting-at same (Lasting-refl before.user_entity)
    Extends-Lasting {before = before} (inr (r, own, inr (v, same_project, same))) =
        Lasting-at same (Lasting-snoc before.user_entity v)

    -- Access that is granted takes nothing.
    granted-Lasting :
        (before : List UserEntity) (p : UserEntity → Bool) (now : Time) (source : String)
        → Lasting lost before (update_where p (grant_row now source) before)
    granted-Lasting before p now source =
        Lasting-update p (grant_row now source) (λ v. refl) (λ v. refl) (λ v. refl)
          (λ v t spared. refl) (Lasting-refl before)

    GrantOutcome-Lasting :
        {before db : Db} {id : String} (r : Response)
        → GrantOutcome before id r db
        → Lasting lost before.user_entity db.user_entity
    GrantOutcome-Lasting {before = before} r (inl ((k, is_key, (valid, in_, (now, result))), _)) =
        Lasting-at result (granted-Lasting before.user_entity (listed (k ∷ [])) now "admin")
    GrantOutcome-Lasting {before = before} r (inr (same, _)) =
        Lasting-at same (Lasting-refl before.user_entity)

    RoundOutcome-Lasting :
        {before db : Db} {slug : String}
        → RoundOutcome before slug db
        → Lasting lost before.user_entity db.user_entity
    RoundOutcome-Lasting {before = before} (RoundOutcome.unchanged same) =
        Lasting-at same (Lasting-refl before.user_entity)
    RoundOutcome-Lasting {before = before}
          (batch_in es rows ((valid, in_, (now, users, _)), stamp)) =
        subst (Lasting lost before.user_entity) (sym users)
          (granted-Lasting before.user_entity (listed (user_ids es)) now "scheduler")

    DigestOutcome-Lasting :
        {send : Sender} {p : Project} {before db : Db}
        → DigestOutcome send p before db
        → Lasting lost before.user_entity db.user_entity
    DigestOutcome-Lasting {before = before} (DigestOutcome.unchanged same) =
        Lasting-at same (Lasting-refl before.user_entity)
    DigestOutcome-Lasting {before = before} (stamped now sent same) =
        Lasting-at same (Lasting-refl before.user_entity)

  handle_revoke-Lasting :
      (admin : String) (r : Request) (w : World)
      → Lasting (c.key (trim_space r.path_id)) w.user_entity (handle_revoke admin r w).1.user_entity
  handle_revoke-Lasting admin r w =
      let lost = c.key (trim_space r.path_id) in
      (handle_revoke-Keeps (λ db. Lasting lost w.user_entity db.user_entity) admin r
          (λ reason k now db is_key h.
            Lasting-update (has_id k) (revoke_row now admin reason) (λ v. refl) (λ v. refl)
              (λ v. refl)
              (λ v matched spared.
                absurd (spared (is_key ∙ ap some (sym (str_eq_sound v.id k matched)))))
              h)).at
        w (Lasting-refl w.user_entity)

  handle_delete_waitlist-Lasting :
      {lost : Option String} (r : Request) (w : World)
      → Lasting lost w.user_entity (handle_delete_waitlist r w).1.user_entity
  handle_delete_waitlist-Lasting {lost = lost} r w =
      (handle_delete_waitlist-Keeps (λ db. Lasting lost w.user_entity db.user_entity) r
          (λ k db h. h)).at
        w (Lasting-refl w.user_entity)

  refused-Lasting :
      {lost : Option String} (r : Request) (w : World)
      → Lasting lost w.user_entity (handle_add none r w).1.user_entity
  unfolding handle_add reply
  refused-Lasting r w = Lasting-refl w.user_entity

  asked-Lasting :
      {lost : Option String} (e : Event) (w : World)
      → is_read e ≡ true
      → Lasting lost w.user_entity (perform e w).user_entity
  asked-Lasting e w h = Lasting-at (perform-reads e w h) (Lasting-refl w.user_entity)

  -- On valid tables every request and every round of a task, wherever the driver fails, leaves every
  -- user in the tables, with the same identifier, project and email, and with access if the user had
  -- access, unless the event is a revocation of just this user.
  pub perform-Lasting :
      (e : Event) (w : World)
      → Valid c.key w.db
      → Lasting (revoked_by c.key e) w.user_entity (perform e w).user_entity
  unfolding perform
  perform-Lasting (Event.add none r) w v = refused-Lasting r w
  perform-Lasting (Event.add (some p) r) w v = Extends-Lasting (handle_add-Extends p r w v)
  perform-Lasting (Event.get_all p r) w v = asked-Lasting (Event.get_all p r) w refl
  perform-Lasting (Event.users_by_email p r) w v = asked-Lasting (Event.users_by_email p r) w refl
  perform-Lasting (Event.grant h r) w v =
      GrantOutcome-Lasting (handle_grant h r w).0 (handle_grant-outcome h r w v.0)
  perform-Lasting (Event.revoke admin r) w v = handle_revoke-Lasting admin r w
  perform-Lasting (Event.delete_waitlist r) w v = handle_delete_waitlist-Lasting r w
  perform-Lasting (Event.dashboard h r) w v = asked-Lasting (Event.dashboard h r) w refl
  perform-Lasting (Event.list_with_access h r) w v =
      asked-Lasting (Event.list_with_access h r) w refl
  perform-Lasting (Event.list_waitlist h r) w v = asked-Lasting (Event.list_waitlist h r) w refl
  perform-Lasting (Event.send_digest_now h r) w v = asked-Lasting (Event.send_digest_now h r) w refl
  perform-Lasting (Event.schedule cfg p) w v =
      RoundOutcome-Lasting (process_project-outcome cfg p w v)
  perform-Lasting (Event.digest p) w v =
      DigestOutcome-Lasting
        (process_digest_project-outcome send_digest p w (send_digest-Keeps {P = λ db. db ≡ w.db}))

-- What can happen after `w` without a revocation of that user.
pub data Spares (key : KeyReader) (who : String) (w : World) : World → Type 1 where
  at_first : Spares key who w w
  goes_on :
      {w' : World}
      → Spares key who w w'
      → (repo : Repository) (c : Contract repo) → c.key ≡ key
      → (e : Event) → revoked_by key e ≢ some who
      → Spares key who w (perform ⦃repo = repo⦄ e w')
  environment :
      {w' : World}
      → Spares key who w w'
      → (faults : List Bool) (clock : ℕ → Time) (uuids : ℕ → String)
      → Spares key who w (record w' { faults = faults; clock = clock; uuids = uuids })

Still-then :
    {lost : Option String} {u : UserEntity} {users later : List UserEntity}
    → lost ≢ some u.id
    → Still none u users
    → Lasting lost users later
    → Still none u later
Still-then spared s lasts =
    let t = lasts s.user s.known in
    record {
      user = t.user;
      known = t.known;
      id = t.id ∙ s.id;
      project = t.project ∙ s.project;
      email = t.email ∙ s.email;
      access = λ a never. t.access (s.access a never) (λ e. spared (e ∙ ap some s.id));
    }

module _ (key : KeyReader) (w : World) (valid : Valid key w.db) where
  Spares-Valid : {who : String} {w' : World} → Spares key who w w' → Valid key w'.db
  Spares-Valid at_first = valid
  Spares-Valid (goes_on before repo c same e spared) =
      Step-Valid (happens repo c same e) (Spares-Valid before)
  Spares-Valid (Spares.environment before faults clock uuids) = Spares-Valid before

  Spares-Still :
      (u : UserEntity) {w' : World}
      → In u w.user_entity
      → Spares key u.id w w'
      → Still none u w'.user_entity
  Spares-Still u m at_first = Lasting-refl w.user_entity u m
  Spares-Still u m (goes_on {w' = w'} before repo c same e spared) =
      Still-then (λ lost. spared (ap (λ k. revoked_by k e) (sym same) ∙ lost))
        (Spares-Still u m before)
        (perform-Lasting ⦃repo = repo⦄ ⦃c = c⦄ e w'
          (subst (λ k. Valid k w'.db) (sym same) (Spares-Valid before)))
  Spares-Still u m (Spares.environment before faults clock uuids) = Spares-Still u m before

-- From valid tables on, whoever has access has it at any later time up to which no request revokes
-- just this user, under the same identifier, project and email, whatever else is requested, whichever
-- tasks run, over any repositories that keep the contract and with the driver failing anywhere.
pub access-lasts :
    (key : KeyReader) (w w' : World) (u : UserEntity)
    → Valid key w.db
    → In u w.user_entity
    → u.has_access ≡ true
    → Spares key u.id w w'
    → (v : UserEntity) × In v w'.user_entity
      × (v.id ≡ u.id)
      × (v.project_slug ≡ u.project_slug)
      × (v.email ≡ u.email)
      × (v.has_access ≡ true)
access-lasts key w w' u valid m a spared =
    let s = Spares-Still key w valid u m spared in
    (s.user, s.known, s.id, s.project, s.email, s.access a (λ e. absurd (cc)))
