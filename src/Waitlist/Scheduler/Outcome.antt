-- ===== src/Waitlist/Scheduler/Outcome.antt =====
-- `processProject` as a whole: it lets a batch of the project's entries in, or changes nothing.
use waitinglist.Prelude.{
  ◌⊎◌, inl, inr, ◌≡◌, refl, sym, ◌∙◌, subst, ℕ, zero, suc, String, Bool, true, false, List, [], ◌∷◌,
  In, keep, not, In-keep,
}
use waitinglist.Model.{WaitingListEntry, Project}
use waitinglist.Store.{Db, World}
use waitinglist.Store.Keeps.{Keeps, action_rules, Keeps-then}
use waitinglist.Store.Action.{reply, ◌>>=◌, begin_tx, in_tx}
use waitinglist.Store.Transactions.{Ends, transaction-Ends}
use waitinglist.Waitlist.Scheduler.{
  Settings, let_in, run_batch, process_project, check_all_projects, check_rounds, start,
}
use waitinglist.Waitlist.Scheduler.Batch.{ReadIn, Stamped}
use waitinglist.Waitlist.Scheduler.Transaction.{BatchOutcome, let_in-Ends}
use waitinglist.Waitlist.Scheduler.Steps.{after_commit-Keeps}
use waitinglist.Waitlist.Scheduler.Gathering.{gather, gather-Gathered, process_project-halves}
use waitinglist.Waitlist.Scheduler.Keys.{Claims, Read-Claims}
use waitinglist.Repository.{Repository}
use waitinglist.Repository.Read.{Read, Read-mono, rows_of, is_of_project}
use waitinglist.Repository.Keys.{Valid, HasKeys, HasKeys-of, HasKeys-update}
use waitinglist.Repository.Contract.{Contract}
use waitinglist.Sqlite.Users.{grant_row}
use waitinglist.Invariant.Grant.{listed}
use waitinglist.Waitlist.Scheduler.{user_ids}
use waitinglist.Waitlist.Scheduler.Batch.{of_entry}

module _ ⦃repo : Repository⦄ ⦃c : Contract repo⦄ where
  -- The transaction of a batch whose entries may have been read from earlier tables, and what follows.
  run_batch-ends :
      (cfg : Settings) (p : Project) (before : Db)
      → Valid c.key before
      → (e : WaitingListEntry) (es : List WaitingListEntry)
      → ((x : WaitingListEntry) → In x (e ∷ es) → Claims c.key before x)
      → (Q : Db → Type 0)
      → ((done : Bool) (db : Db) → BatchOutcome before p.slug (e ∷ es) done db → Q db)
      → (w : World) → w.db ≡ before
      → Q (run_batch cfg p (e ∷ es) w).1.db
  unfolding run_batch ◌>>=◌
  run_batch-ends cfg p before valid e es claims Q after w same =
      let batch = e ∷ es in
      let tx = (begin_tx >>= λ tx. in_tx tx false (let_in p batch)) w in
      let read : ReadIn before batch before = (valid, claims, refl) in
      (after_commit-Keeps {P = Q} cfg p batch tx.0).at tx.1 (
        after tx.0 tx.1.db (
          transaction-Ends (BatchOutcome before p.slug batch) false (let_in p batch) w same λ w' e'.
            subst (λ d. Ends d (BatchOutcome before p.slug batch) (let_in p batch w'))
              (sym (e' ∙ same))
              (let_in-Ends p e es before w' (subst (ReadIn before batch) (sym (e' ∙ same)) read))))

  -- The tables after the transaction, by those that it began with.
  abbrev pub Interrupted : Db → String → List WaitingListEntry → Db → Type 0
  Interrupted between slug es db = (db ≡ between) ⊎ Stamped between slug es db

  pub run_batch-Interrupted :
      (cfg : Settings) (p : Project) (es : List WaitingListEntry) (w : World)
      → Valid c.key w.db
      → ((x : WaitingListEntry) → In x es → Claims c.key w.db x)
      → Interrupted w.db p.slug es (run_batch cfg p es w).1.db
  unfolding run_batch reply
  run_batch-Interrupted cfg p [] w v claims = inl refl
  run_batch-Interrupted cfg p (e ∷ es) w v claims =
      run_batch-ends cfg p w.db v e es claims (Interrupted w.db p.slug (e ∷ es)) settled w refl
    where
      settled :
          (done : Bool) (db : Db)
          → BatchOutcome w.db p.slug (e ∷ es) done db
          → Interrupted w.db p.slug (e ∷ es) db
      settled true db h = inr h
      settled false db h = inl h

  -- The tables after a round, by the tables before it: as they were, or valid, with some entries of
  -- the project's rows let in.
  pub data RoundOutcome (before : Db) (slug : String) (db : Db) : Type 0 where
    unchanged : db ≡ before → RoundOutcome before slug db
    batch_in :
        (batch : List WaitingListEntry)
        → ((e : WaitingListEntry)
            → In e batch
            → Read c.weighted (rows_of slug before.waiting_list) e)
        → Stamped before slug batch db
        → RoundOutcome before slug db

  module _ (cfg : Settings) (p : Project) (before : Db) (valid : Valid c.key before) where
    abbrev Outcome : Db → Type 0
    Outcome = RoundOutcome before p.slug

    abbrev AllRows : List WaitingListEntry → Type 0
    AllRows es =
        (e : WaitingListEntry) → In e es → Read c.weighted (rows_of p.slug before.waiting_list) e

    BatchOutcome-Outcome :
        (es : List WaitingListEntry) (done : Bool) (db : Db)
        → AllRows es
        → BatchOutcome before p.slug es done db
        → Outcome db
    BatchOutcome-Outcome es true db rows h = batch_in es rows h
    BatchOutcome-Outcome es false db rows h = unchanged h

    run_batch-Outcome :
        (es : List WaitingListEntry) (w : World)
        → w.db ≡ before
        → AllRows es
        → Outcome (run_batch cfg p es w).1.db
    unfolding run_batch reply
    run_batch-Outcome [] w same rows = unchanged same
    run_batch-Outcome (e ∷ es) w same rows =
        run_batch-ends cfg p before valid e es
          (λ x m. Read-Claims c.key before valid x (
            Read-mono (λ r k. (In-keep (is_of_project p.slug) before.waiting_list k).0) (rows x m)))
          Outcome (λ done db. BatchOutcome-Outcome (e ∷ es) done db rows) w same

    process-Outcome : (w : World) → w.db ≡ before → Outcome (process_project cfg p w).1.db
    unfolding ◌>>=◌
    process-Outcome w same =
        let read = gather-Gathered cfg p before w same in
        subst (λ r. Outcome r.1.db) (sym (process_project-halves cfg p w))
          (run_batch-Outcome (gather cfg p w).0 (gather cfg p w).1 read.0 read.1)

  -- On valid tables `processProject`, wherever the driver fails, either changes no table or lets a
  -- batch of entries in, all read from the project's rows. Then the tables are valid, each entry's user
  -- has access from "scheduler" and no row of the list, the users and the list are those before with
  -- just this change, and the project's success is stamped.
  pub process_project-outcome :
      (cfg : Settings) (p : Project) (w : World)
      → Valid c.key w.db
      → RoundOutcome w.db p.slug (process_project cfg p w).1.db
  process_project-outcome cfg p w valid = process-Outcome cfg p w.db valid w refl

  -- A batch leaves the identifiers alone.
  Stamped-HasKeys :
      (before db : Db) (slug : String) (es : List WaitingListEntry)
      → HasKeys c.key before
      → Stamped before slug es db
      → HasKeys c.key db
  Stamped-HasKeys before db slug es h ((valid, in_, (now, users, rows)), stamp) =
      HasKeys-of c.key users rows (
        HasKeys-update c.key (listed (user_ids es)) (grant_row now "scheduler")
          (keep (λ r. not (of_entry es r)) before.waiting_list) (λ u. refl)
          (λ r m. (In-keep (λ r. not (of_entry es r)) before.waiting_list m).0) h)

  outcome-Valid :
      {before db : Db} {slug : String}
      → Valid c.key before
      → RoundOutcome before slug db
      → Valid c.key db
  outcome-Valid v (unchanged same) = subst (Valid c.key) (sym same) v
  outcome-Valid {before = before} {db = db} {slug = slug} v (batch_in batch rows h) =
      (h.0.0, Stamped-HasKeys before db slug batch v.1 h)

  pub process_project-Valid :
      (cfg : Settings) (p : Project) → Keeps (Valid c.key) (process_project cfg p)
  process_project-Valid cfg p = record {
    at = λ w v. outcome-Valid v (process_project-outcome cfg p w v);
  }

  check_all_projects-Valid :
      (cfg : Settings) (ps : List Project) → Keeps (Valid c.key) (check_all_projects cfg ps)
  unfolding check_all_projects
  check_all_projects-Valid cfg [] = search action_rules
  check_all_projects-Valid cfg (p ∷ ps) =
      Keeps-then _ _ (process_project-Valid cfg p) λ _. check_all_projects-Valid cfg ps

  check_rounds-Valid :
      (cfg : Settings) (ps : List Project) (rounds : ℕ)
      → Keeps (Valid c.key) (check_rounds cfg ps rounds)
  unfolding check_rounds
  check_rounds-Valid cfg ps zero = search action_rules
  check_rounds-Valid cfg ps (suc rounds) =
      Keeps-then _ _ (check_all_projects-Valid cfg ps) λ _. check_rounds-Valid cfg ps rounds

  -- However often the loop of `Start` comes round, the scheduler keeps the tables valid.
  pub start-Valid :
      (cfg : Settings) (ps : List Project) (rounds : ℕ) → Keeps (Valid c.key) (start cfg ps rounds)
  unfolding start
  start-Valid cfg ps rounds = search (action_rules, check_rounds-Valid)
