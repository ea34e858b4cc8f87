-- ===== src/Http/Enlist/Safety.antt =====
-- `handleAdd`: what its answers mean for the tables.
use waitinglist.Http.Enlist.Outcome.{
  IsWaiting, with_row, IsExtended, Extends, AddOutcome, enlisted, unchanged,
}
use waitinglist.Prelude.{
  ◌≡◌, refl, sym, ap, subst, ◌∙◌, String, false, Option, none, some, In, &&-eq-true, arith, inl,
  ◌++◌, ◌∷◌, [], inr,
}
use waitinglist.Prelude.Text.{str_eq_sound}
use waitinglist.Model.{
  Result, ok, err, user_not_found, already_on_waiting_list, Project, UserEntity, WaitingListEntry,
}
use waitinglist.Store.{Db, World, WaitingRow}
use waitinglist.Store.Monad.{driver}
use waitinglist.Store.Keeps.{Keeps, driver-db}
use waitinglist.Store.Action.{reply, ◌>>=◌, commit}
use waitinglist.Store.Ensures.{Answers}
use waitinglist.Store.Transactions.{Ends, if-Ends, transaction-Ends}
use waitinglist.Http.Types.{Request, Response, AddToWaitingListRequest}
use waitinglist.Http.Enlist.{
  on_commit, on_added, enqueue, on_created, new_user, on_found, enlist, on_valid, on_decoded,
  handle_add, validate_waiting_list_request, internal_error,
}
use waitinglist.Sqlite.Users.{has_address}
use waitinglist.Sqlite.Users.Reads.{IsAnswer}
use waitinglist.Repository.{Repository}
use waitinglist.Repository.Keys.{Valid}
use waitinglist.Repository.Contract.{Contract, IsCreated, Waiting}
use waitinglist.Repository.Reading.{get_by_email_tx-Keeps}

module _ ⦃repo : Repository⦄ ⦃c : Contract repo⦄ where
  module _ (p : Project) (email : String) (before : Db) where
    abbrev Outcome : Response → Db → Type 0
    Outcome = AddOutcome before p.slug email

    abbrev Enlisted : UserEntity → WaitingListEntry → Db → Type 0
    Enlisted u e db =
        Valid c.key db × IsWaiting c.column p.slug email u.id e.id db × IsExtended p.slug before db

    on_commit-Ends :
        (u : UserEntity) (e : WaitingListEntry) (r : Result (Unit {0})) (w : World)
        → Enlisted u e w.db
        → let o = on_commit u e r w in Ends before Outcome o
    unfolding on_commit reply
    on_commit-Ends u e (ok _) w h = enlisted u e refl h.0 h.1 h.2
    on_commit-Ends u e (err _) w h = unchanged (ground arith) refl

    on_added-Ends :
        (u : UserEntity) (r : Result WaitingListEntry × World)
        → Answers (λ e. Enlisted u e) r
        → Ends before Outcome (on_added u r.0 r.1)
    unfolding on_added ◌>>=◌ commit
    on_added-Ends u (ok e, w) h =
        on_commit-Ends u e (driver w).0 (driver w).1 (subst (Enlisted u e) (sym (driver-db w)) h)
    on_added-Ends u (err already_on_waiting_list, w) h = unchanged (ground arith) refl
    on_added-Ends u (err _, w) h = unchanged (ground arith) refl

    -- the user to enqueue is `v` in the tables `start`, which extend those before
    module _ (start : Db)
        (grown : (r : WaitingRow)
          → r.project_slug ≡ p.slug
          → IsExtended p.slug before (with_row start r))
        (u v : UserEntity) (same : v.id ≡ u.id) (no_access : v.has_access ≡ false)
        (project : v.project_slug ≡ p.slug) (address : c.column v.email ≡ c.column email) where
      Waiting-Answers :
          (r : Result WaitingListEntry × World)
          → Answers
              (λ e db. Valid c.key db × In v db.user_entity × Waiting start p.slug u.id e.id db)
              r
          → Answers (λ e. Enlisted u e) r
      Waiting-Answers (ok e, w) h = (
        h.0,
        record {
          user = v;
          known = h.1;
          same = same;
          project = project;
          address = address;
          no_access = no_access;
          waiting = (h.2.0, h.2.1, h.2.2, h.2.3, h.2.4);
        },
        subst (IsExtended p.slug before) (sym h.2.5) (grown h.2.0 h.2.4),
      )
      Waiting-Answers (err _, w) h = tt

      enqueue-Ends :
          (w : World)
          → Valid c.key w.db
          → In v w.user_entity
          → w.db ≡ start
          → Ends before Outcome (enqueue p u w)
      unfolding enqueue ◌>>=◌
      enqueue-Ends w valid known at = on_added-Ends u (repo.add p.slug u.id w) (
          Waiting-Answers (repo.add p.slug u.id w)
            ((c.add_ensures start v p.slug u.id same no_access project).at w (valid, known, at)))

  module _ (p : Project) (r : Request) (req : AddToWaitingListRequest) (before : Db) where
    on_created-Ends :
        (made : Result UserEntity) (w : World)
        → Valid c.key w.db
        → IsCreated c.column before w.db (new_user p r req) made
        → Ends before (Outcome p req.email before) (on_created p made w)
    unfolding on_created reply new_user
    on_created-Ends (err _) w valid c = unchanged (ground arith) refl
    on_created-Ends (ok u) w valid (v, known, same, no_access, project, address, created) =
        enqueue-Ends p req.email before
          (record before { user_entity = before.user_entity ++ v ∷ [] })
          (λ row own. (row, own, inr (v, project, refl))) u v same no_access project address w valid
          known created

    on_found-Ends :
        (found : Result UserEntity) (w : World)
        → Valid c.key w.db
        → IsAnswer w.db (has_address p.slug req.email) found
        → w.db ≡ before
        → Ends before (Outcome p req.email before) (on_found p r req found w)
    unfolding on_found ◌>>=◌ reply
    on_found-Ends (ok u) w valid (known, at) same =
        let address = &&-eq-true _ _ at in
        if-Ends before (Outcome p req.email before) u.has_access _ _ w
          (λ access. unchanged (ground arith) refl)
          λ no_access.
            enqueue-Ends p req.email before before (λ row own. (row, own, inl refl)) u u refl
              no_access (str_eq_sound _ _ address.0) (ap c.column (str_eq_sound _ _ address.1)) w
              valid known same
    on_found-Ends (err user_not_found) w valid a same =
        let made = repo.create_tx (new_user p r req) w in
        on_created-Ends made.0 made.1 ((c.create_tx_keeps (new_user p r req)).at w valid) (
          subst (λ d. IsCreated c.column d made.1.db (new_user p r req) made.0) same
            (c.create_tx_created (new_user p r req) w))
    on_found-Ends (err _) w valid a same = unchanged (ground arith) refl

    enlist-Ends :
        (w : World)
        → Valid c.key w.db
        → w.db ≡ before
        → Ends before (Outcome p req.email before) (enlist p r req w)
    unfolding enlist ◌>>=◌
    enlist-Ends w valid same =
        let found = repo.get_by_email_tx p.slug req.email w in
        on_found-Ends found.0 found.1
          ((get_by_email_tx-Keeps {P = Valid c.key} p.slug req.email).at w valid)
          ((get_by_email_tx-Keeps {P = λ db. IsAnswer db (has_address p.slug req.email) found.0}
              p.slug req.email).at
            w (c.get_by_email_tx_answer p.slug req.email w))
          ((get_by_email_tx-Keeps {P = λ db. db ≡ before} p.slug req.email).at w same)

    on_valid-Outcome :
        (complaint : Option String) (w : World)
        → Valid c.key w.db
        → w.db ≡ before
        → let a = on_valid p r req complaint w in AddOutcome before p.slug req.email a.0 a.1.db
    unfolding on_valid reply
    on_valid-Outcome (some c) w valid same = unchanged (ground arith) same
    on_valid-Outcome none w valid same =
        transaction-Ends (Outcome p req.email before) internal_error (enlist p r req) w
          (unchanged (ground arith) same)
          λ w' e.
            subst (λ d. Ends d (Outcome p req.email before) (enlist p r req w')) (sym (e ∙ same))
              (enlist-Ends w' (subst (Valid c.key) (sym e) valid) (e ∙ same))

  -- On valid tables, wherever the driver fails, `handleAdd` either answers 201 with a user and an
  -- entry, and then the tables are valid and the user of that address waits under those identifiers
  -- and has no access, and nothing has changed but for the new row and, if there was no such user, a
  -- new user; or it answers another status and changes no table.
  pub handle_add-outcome :
      (p : Project) (r : Request) (req : AddToWaitingListRequest) (w : World)
      → r.add_body ≡ some req
      → Valid c.key w.db
      → let a = handle_add (some p) r w in AddOutcome w.db p.slug req.email a.0 a.1.db
  unfolding handle_add on_decoded
  handle_add-outcome p r req w body valid =
      subst (λ b. let a = on_decoded p r b w in AddOutcome w.db p.slug req.email a.0 a.1.db)
        (sym body) (on_valid-Outcome p r req w.db (validate_waiting_list_request req) w valid refl)

  outcome-Extends :
      {before db : Db} {slug email : String} {r : Response}
      → AddOutcome before slug email r db
      → Extends slug before db
  outcome-Extends (enlisted u e answer valid waits extended) = inr extended
  outcome-Extends (unchanged other same) = inl same

  decoded-Extends :
      (p : Project) (r : Request) (body : Option AddToWaitingListRequest) (w : World)
      → Valid c.key w.db
      → Extends p.slug w.db (on_decoded p r body w).1.db
  unfolding on_decoded reply
  decoded-Extends p r none w v = inl refl
  decoded-Extends p r (some req) w v =
      outcome-Extends (on_valid-Outcome p r req w.db (validate_waiting_list_request req) w v refl)

  pub handle_add-Extends :
      (p : Project) (r : Request) (w : World)
      → Valid c.key w.db
      → Extends p.slug w.db (handle_add (some p) r w).1.db
  unfolding handle_add
  handle_add-Extends p r w v = decoded-Extends p r r.add_body w v

  outcome-Valid :
      {before db : Db} {slug email : String} {r : Response}
      → Valid c.key before
      → AddOutcome before slug email r db
      → Valid c.key db
  outcome-Valid v (enlisted u e answer valid waits extended) = valid
  outcome-Valid v (unchanged other same) = subst (Valid c.key) (sym same) v

  on_decoded-Valid :
      (p : Project) (r : Request) (body : Option AddToWaitingListRequest)
      → Keeps (Valid c.key) (on_decoded p r body)
  unfolding on_decoded reply
  on_decoded-Valid p r none = record { at = λ w v. v }
  on_decoded-Valid p r (some req) = record {
    at = λ w v.
        outcome-Valid v
          (on_valid-Outcome p r req w.db (validate_waiting_list_request req) w v refl);
  }

  -- Whatever it is sent and wherever the driver fails, `handleAdd` keeps the tables valid: above all,
  -- nobody is on the waiting list who has access.
  pub handle_add-Valid : (p : Option Project) (r : Request) → Keeps (Valid c.key) (handle_add p r)
  unfolding handle_add reply
  handle_add-Valid none r = record { at = λ w v. v }
  handle_add-Valid (some p) r = on_decoded-Valid p r r.add_body
