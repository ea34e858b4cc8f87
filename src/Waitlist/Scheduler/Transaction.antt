-- ===== src/Waitlist/Scheduler/Transaction.antt =====
-- The transaction of `processProject`: it lets the whole batch in, or nobody.
use waitinglist.Prelude.{◌≡◌, refl, sym, subst, ap, String, Bool, true, false, List, ◌∷◌, ◌∙◌}
use waitinglist.Model.{Time, Result, ok, err, WaitingListEntry, Project}
use waitinglist.Store.{Db, World}
use waitinglist.Store.Monad.{driver}
use waitinglist.Store.Action.{◌>>=◌, commit}
use waitinglist.Store.Transactions.{Ends}
use waitinglist.Waitlist.Scheduler.{
  user_ids, entry_ids, let_in, on_granted, on_deleted, on_updated, on_committed, last_success_key,
}
use waitinglist.Waitlist.Scheduler.Batch.{ReadIn, Unstamped, Stamped, batch-Unstamped}
use mathlib.Core.Option.{some-injective, some}
use waitinglist.Store.Keeps.{driver-db}
use waitinglist.Store.Ensures.{Answers}
use waitinglist.Sqlite.Rows.{is_in}
use waitinglist.Sqlite.Scheduler.{upsert}
use waitinglist.Invariant.Grant.{Granted, Deleted}
use waitinglist.Repository.{Repository}
use waitinglist.Repository.Keys.{read_all}
use waitinglist.Repository.Contract.{Contract, Written}
use waitinglist.Waitlist.Scheduler.Keys.{user_ids-keys, entry_ids-keys}

-- The tables with the scheduler's stamp, which touches neither users nor the list.
abbrev with_stamp : String → Time → Db → Db
with_stamp slug now db = record db {
  scheduler_state = upsert slug last_success_key now db.scheduler_state;
}

with_stamp-Stamped :
    (start : Db) (es : List WaitingListEntry) (slug : String) (now : Time) (db : Db)
    → Unstamped start es db
    → Stamped start slug es (with_stamp slug now db)
with_stamp-Stamped start es slug now db ((v, in_, exact), state) = (
  (
    record {
      user_key = v.user_key;
      address_key = v.address_key;
      entry_key = v.entry_key;
      waiting_key = v.waiting_key;
      waiting_known = v.waiting_known;
      waiting_no_access = v.waiting_no_access;
      waiting_project = v.waiting_project;
      audited = v.audited;
    },
    λ e m.
        let l = in_ e m in
        record {
          user = l.user;
          known = l.known;
          same = l.same;
          access = l.access;
          granted_by = l.granted_by;
          off_list = l.off_list;
        },
    exact,
  ),
  (now, ap (upsert slug last_success_key now) state),
)

Written-Answers :
    (start : Db) (es : List WaitingListEntry) (slug : String) (before : Db)
    (r : Result (Unit {0}) × World)
    → Unstamped start es before
    → Written before slug last_success_key r
    → Answers (λ _. Stamped start slug es) r
Written-Answers start es slug before (ok _, w) h (now, result) =
    subst (Stamped start slug es) (sym result) (with_stamp-Stamped start es slug now before h)
Written-Answers start es slug before (err _, w) h same = tt

-- What the transaction answers: the batch is in, or the tables are as they were.
abbrev pub BatchOutcome : Db → String → List WaitingListEntry → Bool → Db → Type 0
BatchOutcome before slug es true db = Stamped before slug es db
BatchOutcome before slug es false db = db ≡ before

module _ (p : Project) (es : List WaitingListEntry) (before : Db) where
  on_committed-Ends :
      (r : Result (Unit {0})) (w : World)
      → Stamped before p.slug es w.db
      → Ends before (BatchOutcome before p.slug es) (on_committed r, w)
  unfolding on_committed
  on_committed-Ends (ok _) w h = h
  on_committed-Ends (err _) w h = refl

  on_updated-Ends :
      (r : Result (Unit {0}) × World)
      → Answers (λ _. Stamped before p.slug es) r
      → Ends before (BatchOutcome before p.slug es) (on_updated r.0 r.1)
  unfolding on_updated ◌>>=◌ commit
  on_updated-Ends (ok _, w) h =
      on_committed-Ends (driver w).0 (driver w).1
        (subst (Stamped before p.slug es) (sym (driver-db w)) h)
  on_updated-Ends (err _, w) h = refl

module _ ⦃repo : Repository⦄ ⦃c : Contract repo⦄ where
  -- Some keys, which the texts are read as, and what is so of the tables with them.
  abbrev WithKeys : List String → (List String → Db → Type 0) → Db → Type 0
  WithKeys ids Q db = (ks : List String) × (read_all c.key ids ≡ some ks) × Q ks db

  -- The keys of texts that are keys are these.
  at_keys :
      (ids : List String) (Q : List String → Db → Type 0) (db : Db)
      → read_all c.key ids ≡ some ids
      → WithKeys ids Q db
      → Q ids db
  at_keys ids Q db keys (ks, read, h) = subst (λ l. Q l db) (some-injective _ _ (sym read ∙ keys)) h

  module _ (p : Project) (e : WaitingListEntry) (es : List WaitingListEntry) (before : Db)
      (user_keys : read_all c.key (user_ids (e ∷ es)) ≡ some (user_ids (e ∷ es)))
      (entry_keys : read_all c.key (entry_ids (e ∷ es)) ≡ some (entry_ids (e ∷ es))) where
    abbrev batch : List WaitingListEntry
    batch = e ∷ es

    abbrev LetIn : Db → Type 0
    LetIn = Granted (ReadIn before batch) (user_ids batch) "scheduler"

    on_deleted-Ends :
        (r : Result (Unit {0}) × World)
        → Answers (λ _. WithKeys (entry_ids batch) (λ ks. Deleted LetIn (λ row. is_in ks row.id))) r
        → Ends before (BatchOutcome before p.slug batch) (on_deleted p r.0 r.1)
    unfolding on_deleted ◌>>=◌
    on_deleted-Ends (ok _, w) d =
        let deleted =
          at_keys (entry_ids batch) (λ ks. Deleted LetIn (λ row. is_in ks row.id)) w.db entry_keys
            d in
        on_updated-Ends p batch before (repo.update_last_success p.slug last_success_key w) (
          Written-Answers before batch p.slug w.db
            (repo.update_last_success p.slug last_success_key w)
            (batch-Unstamped before batch w.db deleted)
            (c.update_last_success_written p.slug last_success_key w))
    on_deleted-Ends (err _, w) d = refl

    on_granted-Ends :
        (r : Result (Unit {0}) × World)
        → Answers
            (λ _. WithKeys (user_ids batch) (λ ks. Granted (ReadIn before batch) ks "scheduler"))
            r
        → Ends before (BatchOutcome before p.slug batch) (on_granted p batch r.0 r.1)
    unfolding on_granted ◌>>=◌ entry_ids
    on_granted-Ends (ok _, w) g =
        let granted =
          at_keys (user_ids batch) (λ ks. Granted (ReadIn before batch) ks "scheduler") w.db
            user_keys g in
        on_deleted-Ends (repo.delete_by_ids_tx (entry_ids batch) w)
          ((c.delete_by_ids_tx_ensures LetIn e.id (entry_ids es)).at w granted)
    on_granted-Ends (err _, w) g = refl

  module _ (p : Project) (e : WaitingListEntry) (es : List WaitingListEntry) (before : Db) where
    pub let_in-Ends :
        (w : World)
        → ReadIn before (e ∷ es) w.db
        → Ends before (BatchOutcome before p.slug (e ∷ es)) (let_in p (e ∷ es) w)
    unfolding let_in ◌>>=◌ user_ids
    let_in-Ends w held =
        on_granted-Ends p e es before (user_ids-keys c.key w.db held.0 (e ∷ es) held.1)
          (entry_ids-keys c.key w.db held.0 (e ∷ es) held.1)
          (repo.grant_access_tx (user_ids (e ∷ es)) "scheduler" w)
          ((c.grant_access_tx_ensures (ReadIn before (e ∷ es)) e.user_id (user_ids es) "scheduler"
              refl).at
            w held)
