-- ===== src/Machine/Interleaving.antt =====
-- A round of the scheduler that requests interrupt: they run after it has read its batch, and before
-- the transaction that lets the batch in.
use waitinglist.Prelude.{
  ◌≡◌, refl, sym, subst, ◌∙◌, not, String, Bool, true, false, List, [], ◌∷◌, In, In-keep, keep, inl,
  any, arith, inr,
}
use waitinglist.Model.{Project, WaitingListEntry}
use waitinglist.Store.{Db, World, WaitingRow}
use waitinglist.Notifier.Send.{send_digest}
use waitinglist.Notifier.Send.Reads.{send_digest-Keeps}
use waitinglist.Http.Types.{Request, Response}
use waitinglist.Http.Admin.Access.{handle_revoke, handle_delete_waitlist, handle_grant}
use waitinglist.Http.Admin.Access.Safety.{handle_revoke-Keeps, handle_delete_waitlist-Keeps}
use waitinglist.Http.Admin.Access.Granting.{GrantOutcome, handle_grant-outcome}
use waitinglist.Sqlite.Waiting.{has_entry_id, is_of_user}
use waitinglist.Waitlist.Scheduler.{Settings, run_batch}
use waitinglist.Waitlist.Scheduler.Batch.{of_entry}
use waitinglist.Waitlist.Scheduler.Keys.{Claims, Read-Claims}
use waitinglist.Waitlist.Scheduler.Gathering.{gather, gather-Gathered}
use waitinglist.Waitlist.Scheduler.Outcome.{
  RoundOutcome, process_project-outcome, batch_in, Interrupted, run_batch-Interrupted,
}
use waitinglist.Waitlist.Digest.{Sender}
use waitinglist.Waitlist.Digest.Outcome.{DigestOutcome, process_digest_project-outcome, stamped}
use waitinglist.Repository.{Repository}
use waitinglist.Repository.Read.{Read-mono, is_of_project}
use waitinglist.Repository.Keys.{Valid}
use waitinglist.Repository.Contract.{Contract}
use waitinglist.Machine.{Event, perform, perform-reads, perform-Valid, is_read}
use waitinglist.Machine.History.{perform-Lasting}

-- Every row of the list was there before.
abbrev Shrinks : Db → Db → Type 0
Shrinks before db = (r : WaitingRow) → In r db.waiting_list → In r before.waiting_list

Shrinks-at :
    (before : Db) {db target : Db} → db ≡ target → Shrinks before target → Shrinks before db
Shrinks-at before same h = subst (Shrinks before) (sym same) h

Shrinks-keep :
    (before : Db) (p : WaitingRow → Bool) (r : WaitingRow)
    → In r (keep (λ r. not (p r)) before.waiting_list)
    → In r before.waiting_list
Shrinks-keep before p r m = (In-keep (λ r. not (p r)) before.waiting_list m).0

-- a sign-up
abbrev pub is_add : Event → Bool
is_add (Event.add p r) = true
is_add _ = false

module _ ⦃repo : Repository⦄ where
  pub perform_all : List Event → World → World
  perform_all [] w = w
  perform_all (e ∷ es) w = perform_all es (perform e w)

  -- `processProject`, with what is requested between its halves
  pub interrupted : Settings → Project → List Event → World → World
  unfolding perform_all
  interrupted cfg p events w =
      let batch = gather cfg p w in (run_batch cfg p batch.0 (perform_all events batch.1)).1

module _ ⦃repo : Repository⦄ ⦃c : Contract repo⦄ where
  GrantOutcome-Shrinks :
      {before db : Db} {id : String} (r : Response)
      → GrantOutcome before id r db
      → Shrinks before db
  GrantOutcome-Shrinks {before = before} r (inl ((k, is_key, (valid, in_, (now, result))), _)) =
      Shrinks-at before result (Shrinks-keep before (is_of_user k))
  GrantOutcome-Shrinks {before = before} r (inr (same, _)) = Shrinks-at before same (λ r m. m)

  RoundOutcome-Shrinks :
      {before db : Db} {slug : String} → RoundOutcome before slug db → Shrinks before db
  RoundOutcome-Shrinks {before = before} (RoundOutcome.unchanged same) =
      Shrinks-at before same (λ r m. m)
  RoundOutcome-Shrinks {before = before}
        (batch_in es rows ((valid, in_, (now, users, list)), stamp)) =
      λ r m. Shrinks-keep before (of_entry es) r (subst (In r) list m)

  DigestOutcome-Shrinks :
      {send : Sender} {p : Project} {before db : Db}
      → DigestOutcome send p before db
      → Shrinks before db
  DigestOutcome-Shrinks {before = before} (DigestOutcome.unchanged same) =
      Shrinks-at before same (λ r m. m)
  DigestOutcome-Shrinks {before = before} (stamped now sent same) =
      Shrinks-at before same (λ r m. m)

  asked-Shrinks : (e : Event) (w : World) → is_read e ≡ true → Shrinks w.db (perform e w).db
  asked-Shrinks e w h = Shrinks-at w.db (perform-reads e w h) (λ r m. m)

  handle_revoke-Shrinks :
      (admin : String) (r : Request) (w : World) → Shrinks w.db (handle_revoke admin r w).1.db
  handle_revoke-Shrinks admin r w =
      (handle_revoke-Keeps (Shrinks w.db) admin r (λ reason k now db is_key h. h)).at w (λ x m. m)

  handle_delete_waitlist-Shrinks :
      (r : Request) (w : World) → Shrinks w.db (handle_delete_waitlist r w).1.db
  handle_delete_waitlist-Shrinks r w =
      (handle_delete_waitlist-Keeps (Shrinks w.db) r
          (λ k db h x m. h x (Shrinks-keep db (has_entry_id k) x m))).at
        w (λ x m. m)

  -- Whatever is not a sign-up adds nobody to the list.
  perform-Shrinks :
      (e : Event) (w : World) → is_add e ≡ false → Valid c.key w.db → Shrinks w.db (perform e w).db
  unfolding perform
  perform-Shrinks (Event.add p r) w other v = absurd (cc)
  perform-Shrinks (Event.get_all p r) w other v = asked-Shrinks (Event.get_all p r) w refl
  perform-Shrinks (Event.users_by_email p r) w other v =
      asked-Shrinks (Event.users_by_email p r) w refl
  perform-Shrinks (Event.grant h r) w other v =
      GrantOutcome-Shrinks (handle_grant h r w).0 (handle_grant-outcome h r w v.0)
  perform-Shrinks (Event.revoke admin r) w other v = handle_revoke-Shrinks admin r w
  perform-Shrinks (Event.delete_waitlist r) w other v = handle_delete_waitlist-Shrinks r w
  perform-Shrinks (Event.dashboard h r) w other v = asked-Shrinks (Event.dashboard h r) w refl
  perform-Shrinks (Event.list_with_access h r) w other v =
      asked-Shrinks (Event.list_with_access h r) w refl
  perform-Shrinks (Event.list_waitlist h r) w other v =
      asked-Shrinks (Event.list_waitlist h r) w refl
  perform-Shrinks (Event.send_digest_now h r) w other v =
      asked-Shrinks (Event.send_digest_now h r) w refl
  perform-Shrinks (Event.schedule cfg p) w other v =
      RoundOutcome-Shrinks (process_project-outcome cfg p w v)
  perform-Shrinks (Event.digest p) w other v =
      DigestOutcome-Shrinks
        (process_digest_project-outcome send_digest p w (send_digest-Keeps {P = λ db. db ≡ w.db}))

  -- What an entry that was read may rely on outlives it.
  perform-Claims :
      (e : Event) (w : World) (x : WaitingListEntry)
      → is_add e ≡ false
      → Valid c.key w.db
      → Claims c.key w.db x
      → Claims c.key (perform e w).db x
  perform-Claims e w x other v claim =
      let still = perform-Lasting e w v claim.user claim.known in
      record {
        user = still.user;
        known = still.known;
        same = still.id ∙ claim.same;
        own = λ r m of_user. claim.own r (perform-Shrinks e w other v r m) of_user;
        is_key = claim.is_key;
      }

  abbrev AllClaims : List WaitingListEntry → Db → Type 0
  AllClaims es db = (x : WaitingListEntry) → In x es → Claims c.key db x

  perform_all-Claims :
      (events : List Event) (es : List WaitingListEntry) (w : World)
      → any is_add events ≡ false
      → Valid c.key w.db
      → AllClaims es w.db
      → Valid c.key (perform_all events w).db × AllClaims es (perform_all events w).db
  unfolding perform_all
  perform_all-Claims [] es w other v claims = (v, claims)
  perform_all-Claims (e ∷ events) es w other v claims =
      let apart : is_add e ≡ false = ground arith in
      perform_all-Claims events es (perform e w) (ground arith) (perform-Valid e w v)
        (λ x m. perform-Claims e w x apart v (claims x m))

  -- On valid tables, with any requests and tasks but sign-ups between the reading of a batch and its
  -- transaction, and with the driver failing anywhere: `processProject` either changes nothing in its
  -- second half, or lets the whole batch in. Then the tables are valid, each user of the batch has
  -- access from "scheduler" and no row of the list, whatever the requests have done to them, users and
  -- list have no other change, and the success is stamped.
  pub interrupted-outcome :
      (cfg : Settings) (p : Project) (events : List Event) (w : World)
      → any is_add events ≡ false
      → Valid c.key w.db
      → let batch = gather cfg p w in
        Interrupted (perform_all events batch.1).db p.slug batch.0 (interrupted cfg p events w).db
  unfolding interrupted
  interrupted-outcome cfg p events w other v =
      let batch = gather cfg p w in
      let read = gather-Gathered cfg p w.db w refl in
      let start : Valid c.key batch.1.db = subst (Valid c.key) (sym read.0) v in
      let claims : AllClaims batch.0 batch.1.db = λ x m.
        subst (λ db. Claims c.key db x) (sym read.0)
          (Read-Claims c.key w.db v x (
            Read-mono (λ r k. (In-keep (is_of_project p.slug) w.waiting_list k).0) (read.1 x m))) in
      let later = perform_all-Claims events batch.0 batch.1 other start claims in
      run_batch-Interrupted cfg p batch.0 (perform_all events batch.1) later.0 later.1
