-- ===== src/Waitlist/Digest/Outcome.antt =====
-- `processDigestProject` as a whole: what stands behind the stamp of a digest.
use waitinglist.Prelude.{
  ◌≡◌, refl, sym, subst, String, false, ◌&&◌, List, Bool-cases, inl, inr, is_empty,
}
use Prim.Native.String.{◌++◌ as append}
use waitinglist.Model.{Time, Result, ok, err, Project, UserEntity, WaitingListAdminRow}
use waitinglist.Notifier.Message.{DigestData}
use waitinglist.Notifier.Compose.{if_empty, digest_from}
use waitinglist.Store.{Db, World}
use waitinglist.Store.Action
use waitinglist.Store.Action.{reply}
use waitinglist.Store.Keeps.{Keeps, action_rules}
use waitinglist.Waitlist.Digest.{
  Sender, activity_digest, clock_now, period_start, record_success, mail_activity, on_granted,
  on_enlisted, on_last_success, process_digest_project, digest_key,
}
use waitinglist.Sqlite.Scheduler.{upsert}
use waitinglist.Repository.{Repository}
use waitinglist.Repository.Keys.{Valid, HasKeys-of}
use waitinglist.Repository.Contract.{Contract, Written}
use waitinglist.Repository.Reading.{
  get_granted_since-Keeps, get_enlisted_since-Keeps, get_last_success-Keeps,
}

-- the mail of a digest
abbrev mail :
    Sender
    → Project
    → Time
    → Time
    → List WaitingListAdminRow
    → List UserEntity
    → World
    → Result (Unit {0}) × World
mail send p since now es us =
    send p.digest.recipients (digest_from p)
      (if_empty p.digest.subject (append p.name " — Activity Digest"))
      (activity_digest p since now es us)

clock_now-Keeps : {P : Db → Type 0} → Keeps P clock_now
clock_now-Keeps = record { at = λ w h. h }

period_start-Keeps : {P : Db → Type 0} (last : Time) → Keeps P (period_start last)
unfolding period_start
period_start-Keeps last = search (action_rules, clock_now-Keeps)

module _ ⦃repo : Repository⦄ ⦃c : Contract repo⦄ where
  -- the two queries of the task, one after the other
  abbrev enlisted_at : Project → Time → World → Result (List WaitingListAdminRow) × World
  enlisted_at p since w = repo.get_enlisted_since p.slug since w

  abbrev granted_at : Project → Time → World → Result (List UserEntity) × World
  granted_at p since w = repo.get_granted_since p.slug since (enlisted_at p since w).1

  -- What was sent with success: the answers of both queries on the tables, not both empty.
  pub record Sent (send : Sender) (p : Project) (before : Db) : Type 0 where
    pub since : Time
    pub now : Time
    pub enlisted : List WaitingListAdminRow
    pub granted : List UserEntity
    pub at : World
    pub tables : at.db ≡ before
    pub enlisted_read : (enlisted_at p since at).0 ≡ ok enlisted
    pub granted_read : (granted_at p since at).0 ≡ ok granted
    pub something : (is_empty enlisted && is_empty granted) ≡ false
    pub accepted : (mail send p since now enlisted granted (granted_at p since at).1).0 ≡ ok tt

  -- The tables after the task: as they were, or with the stamp of a digest that was sent.
  pub data DigestOutcome (send : Sender) (p : Project) (before : Db) (db : Db) : Type 0 where
    unchanged : db ≡ before → DigestOutcome send p before db
    stamped :
        (now : Time)
        → Sent send p before
        → db
          ≡ record before { scheduler_state = upsert p.slug digest_key now before.scheduler_state }
        → DigestOutcome send p before db

  -- The stamp of the digest touches neither users nor the list.
  outcome-Valid :
      {send : Sender} {p : Project} {before db : Db}
      → Valid c.key before
      → DigestOutcome send p before db
      → Valid c.key db
  outcome-Valid v (unchanged same) = subst (Valid c.key) (sym same) v
  outcome-Valid v (stamped now sent same) = subst (Valid c.key) (sym same) (
    record {
      user_key = v.0.user_key;
      address_key = v.0.address_key;
      entry_key = v.0.entry_key;
      waiting_key = v.0.waiting_key;
      waiting_known = v.0.waiting_known;
      waiting_no_access = v.0.waiting_no_access;
      waiting_project = v.0.waiting_project;
      audited = v.0.audited;
    },
    HasKeys-of c.key refl refl v.1,
  )

  module _ (send : Sender) (p : Project) (before : Db)
      (sends : (to : List String) (from subject : String) (d : DigestData)
        → Keeps (λ db. db ≡ before) (send to from subject d)) where
    abbrev Outcome : Db → Type 0
    Outcome = DigestOutcome send p before

    abbrev Same : World → Type 0
    Same w = w.db ≡ before

    stamped-Outcome :
        (r : Result (Unit {0}) × World)
        → Sent send p before
        → Written before p.slug digest_key r
        → Outcome r.1.db
    stamped-Outcome (ok _, w) sent (now, result) = stamped now sent result
    stamped-Outcome (err _, w) sent same = unchanged same

    record_success-Outcome :
        (r : Result (Unit {0})) (w : World)
        → Same w
        → (r ≡ ok tt → Sent send p before)
        → Outcome (record_success p r w).1.db
    unfolding record_success Action.◌>>=◌ reply
    record_success-Outcome (ok tt) w same sent =
        stamped-Outcome (repo.update_last_success p.slug digest_key w) (sent refl) (
          subst (λ d. Written d p.slug digest_key (repo.update_last_success p.slug digest_key w))
            same (c.update_last_success_written p.slug digest_key w))
    record_success-Outcome (err _) w same sent = unchanged same

    enlisted_at-Same : (since : Time) (w : World) → Same w → Same (enlisted_at p since w).1
    enlisted_at-Same since = (get_enlisted_since-Keeps {P = λ db. db ≡ before} p.slug since).at

    granted_at-Same : (since : Time) (w : World) → Same w → Same (granted_at p since w).1
    granted_at-Same since w same =
        (get_granted_since-Keeps {P = λ db. db ≡ before} p.slug since).at (enlisted_at p since w).1
          (enlisted_at-Same since w same)

    -- what follows the queries that are made at `w`
    module _ (since now : Time) (w : World) (same : Same w) where
      mail_activity-Outcome :
          (es : List WaitingListAdminRow) (us : List UserEntity)
          → (enlisted_at p since w).0 ≡ ok es
          → (granted_at p since w).0 ≡ ok us
          → Outcome (mail_activity send p since now es us (granted_at p since w).1).1.db
      unfolding mail_activity Action.◌>>=◌ reply
      mail_activity-Outcome es us enlisted_read granted_read =
          let queried = (granted_at p since w).1 in
          let tables = granted_at-Same since w same in
          elim (Bool-cases (is_empty es && is_empty us)) [
            | inl none ↦ rw none (unchanged tables)
            | inr something ↦
                let m = mail send p since now es us queried in
                rw something (
                  record_success-Outcome m.0 m.1 ((sends _ _ _ _).at queried tables) λ accepted.
                    record {
                      since = since;
                      now = now;
                      enlisted = es;
                      granted = us;
                      at = w;
                      tables = same;
                      enlisted_read = enlisted_read;
                      granted_read = granted_read;
                      something = something;
                      accepted = accepted;
                    })
          ]

      on_granted-Outcome :
          (es : List WaitingListAdminRow) (r : Result (List UserEntity))
          → (enlisted_at p since w).0 ≡ ok es
          → (granted_at p since w).0 ≡ r
          → Outcome (on_granted send p since now es r (granted_at p since w).1).1.db
      unfolding on_granted reply
      on_granted-Outcome es (ok us) enlisted_read granted_read =
          mail_activity-Outcome es us enlisted_read granted_read
      on_granted-Outcome es (err _) enlisted_read granted_read =
          unchanged (granted_at-Same since w same)

      on_enlisted-Outcome :
          (r : Result (List WaitingListAdminRow))
          → (enlisted_at p since w).0 ≡ r
          → Outcome (on_enlisted send p since now r (enlisted_at p since w).1).1.db
      unfolding on_enlisted Action.◌>>=◌ reply
      on_enlisted-Outcome (err _) enlisted_read = unchanged (enlisted_at-Same since w same)
      on_enlisted-Outcome (ok es) enlisted_read =
          on_granted-Outcome es (granted_at p since w).0 enlisted_read refl

    on_last_success-Outcome :
        (r : Result Time) (w : World) → Same w → Outcome (on_last_success send p r w).1.db
    unfolding on_last_success Action.◌>>=◌ reply
    on_last_success-Outcome (err _) w same = unchanged same
    on_last_success-Outcome (ok last) w same =
        let start = period_start last w in
        let clock = clock_now start.1 in
        on_enlisted-Outcome start.0 clock.0 clock.1
          ((clock_now-Keeps {P = λ db. db ≡ before}).at start.1
            ((period_start-Keeps {P = λ db. db ≡ before} last).at w same))
          (enlisted_at p start.0 clock.1).0 refl

    process-Outcome : (w : World) → Same w → Outcome (process_digest_project send p w).1.db
    unfolding process_digest_project Action.◌>>=◌
    process-Outcome w same =
        let last = repo.get_last_success p.slug digest_key w in
        on_last_success-Outcome last.0 last.1
          ((get_last_success-Keeps {P = λ db. db ≡ before} p.slug digest_key).at w same)

  -- With a sender that leaves the tables alone, `processDigestProject`, wherever the driver fails,
  -- either changes no table, or the sender has accepted a digest of the sign-ups and grants that the
  -- two queries have answered, not both empty, and the tables differ from those before in just the
  -- project's stamp of the digest.
  pub process_digest_project-outcome :
      (send : Sender) (p : Project) (w : World)
      → ((to : List String) (from subject : String) (d : DigestData)
          → Keeps (λ db. db ≡ w.db) (send to from subject d))
      → DigestOutcome send p w.db (process_digest_project send p w).1.db
  process_digest_project-outcome send p w sends = process-Outcome send p w.db sends w refl

  -- With a sender that leaves the tables alone, `processDigestProject` keeps them valid.
  pub process_digest_project-Valid :
      (send : Sender) (p : Project)
      → ((P : Db → Type 0) (to : List String) (from subject : String) (d : DigestData)
          → Keeps P (send to from subject d))
      → Keeps (Valid c.key) (process_digest_project send p)
  process_digest_project-Valid send p sends = record {
    at = λ w v. outcome-Valid v (process_digest_project-outcome send p w (sends (λ db. db ≡ w.db)));
  }
