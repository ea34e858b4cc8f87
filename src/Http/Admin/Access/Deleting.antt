-- ===== src/Http/Admin/Access/Deleting.antt =====
-- `handleDeleteWaitlist`: what its answers mean for the tables.
use waitinglist.Prelude.{some, ◌≡◌, refl, sym, subst, String, false, In, arith}
use waitinglist.Prelude.Text.{str_eq, trim_space}
use waitinglist.Model.{Result, ok, err, waiting_list_entry_not_found}
use waitinglist.Store.{Db, World, WaitingRow}
use waitinglist.Store.Action.{reply, ◌>>=◌}
use waitinglist.Store.Transactions.{if-both}
use waitinglist.Http.Types.{Request, Response, write_error}
use waitinglist.Http.Admin.Access.{on_removed, handle_delete_waitlist}
use waitinglist.Repository.{Repository}
use waitinglist.Repository.Contract.{Contract, Removed, without_entry}
use waitinglist.Sqlite.Waiting.{has_entry_id}
use waitinglist.Invariant.LetIn.{not_matched}

module _ ⦃repo : Repository⦄ ⦃c : Contract repo⦄ where
  -- No entry has that identifier.
  abbrev pub IsGone : String → Db → Type 0
  IsGone k db = (r : WaitingRow) → In r db.waiting_list → str_eq r.id k ≡ false

  -- The entry whose key the text of the path is read as is removed, and nothing else has changed.
  abbrev pub RemovedKey : Db → String → Db → Type 0
  RemovedKey before id db =
      (k : String) × (c.key id ≡ some k) × IsGone k db × (db ≡ without_entry k before)

  module _ (before : Db) (id : String) where
    abbrev ResponseOutcome : Response × World → Type 0
    ResponseOutcome (r, w) =
        (r.status ≡ 204 → RemovedKey before id w.db) × (r.status ≡ 404 → w.db ≡ before)

    on_removed-Outcome :
        (r : Result (Unit {0}) × World)
        → Removed c.key before id r
        → ResponseOutcome (on_removed r.0 r.1)
    unfolding on_removed reply
    on_removed-Outcome (ok _, w) (k, is_key, result) = (
      λ e. (
        k,
        is_key,
        subst (IsGone k) (sym result) (λ r m. not_matched (has_entry_id k) before.waiting_list m),
        result,
      ),
      λ e. absurd (ground arith),
    )
    on_removed-Outcome (err waiting_list_entry_not_found, w) h =
        (λ e. absurd (ground arith), λ e. h refl)
    on_removed-Outcome (err _, w) h = (λ e. absurd (ground arith), λ e. absurd (ground arith))

  -- Where `handleDeleteWaitlist` answers 204, the entry of the path's id is gone and nothing else has
  -- changed; where it answers 404, no table has changed.
  pub handle_delete_waitlist-outcome :
      (r : Request) (w : World)
      → let a = handle_delete_waitlist r w in
        (a.0.status ≡ 204 → RemovedKey w.db (trim_space r.path_id) a.1.db)
        × (a.0.status ≡ 404 → a.1.db ≡ w.db)
  unfolding handle_delete_waitlist ◌>>=◌ reply
  handle_delete_waitlist-outcome r w =
      let id = trim_space r.path_id in
      let blank = reply (write_error 400 "id is required") in
      let deleting = (do d ← repo.delete_by_id_tx id; on_removed d) in
      if-both (ResponseOutcome w.db id) (str_eq id "") blank deleting w
        (λ e. absurd (ground arith), λ e. refl)
        (on_removed-Outcome w.db id (repo.delete_by_id_tx id w) (c.delete_by_id_tx_removed id w))
