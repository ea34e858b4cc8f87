-- ===== src/Http/Admin/Access/Granting.antt =====
-- `handleGrant`: what its answers mean for the tables.
use waitinglist.Prelude.{
  ◌≡◌, ◌≢◌, ◌⊎◌, inl, inr, refl, sym, ◌∙◌, subst, String, Option, none, some, [], ◌∷◌, true, false,
  Bool, Bool-cases, if◌then◌else◌, arith, List, keep, not, In-keep,
}
use waitinglist.Prelude.Text.{trim_space, str_eq}
use waitinglist.Model.{Result, ok, err, user_not_found, UserEntity}
use waitinglist.Store.{Db, World}
use waitinglist.Store.Keeps.{Keeps, driver-db}
use waitinglist.Store.Monad.{driver}
use waitinglist.Store.Action.{reply, ◌>>=◌, commit, begin_tx, in_tx}
use waitinglist.Store.Ensures.{Answers}
use waitinglist.Store.Transactions.{Ends, transaction-Ends}
use waitinglist.Notifier.Send.Reads.{notify_access_granted-db}
use waitinglist.Invariant.{IsValid}
use waitinglist.Http.Types.{Request, Response}
use waitinglist.Http.Enlist.{internal_error}
use waitinglist.Http.Admin.Params.{AdminHandler}
use waitinglist.Http.Admin.Access.{
  granted_response, on_granted, on_deleted, grant, notify_project, notify, on_fetched, after_grant,
  handle_grant, Project, find_project,
}
use waitinglist.Sqlite.Users.{grant_row}
use waitinglist.Sqlite.Waiting.{is_of_user}
use waitinglist.Invariant.Grant.{listed, Granted, Deleted}
use waitinglist.Invariant.LetIn.{IsRemoved, Admitted, Granted-Admitted, Deleted-IsRemoved}
use waitinglist.Repository.{Repository}
use waitinglist.Repository.Keys.{Valid, HasKeys, HasKeys-update, read_all}
use waitinglist.Repository.Contract.{Contract}
use waitinglist.Repository.Reading.{get_by_id-Keeps}
use mathlib.Core.Option.{some-injective}

notify_if-db :
    (b : Bool) (o : Option Project) (u : UserEntity) (w : World)
    → (if b then notify_project o u w else w).db ≡ w.db
unfolding notify_project
notify_if-db false o u w = refl
notify_if-db true none u w = refl
notify_if-db true (some p) u w = notify_access_granted-db u p w

notify-db : (h : AdminHandler) (u : UserEntity) (w : World) → (notify h u w).db ≡ w.db
unfolding notify
notify-db h u w = notify_if-db h.has_notifier (find_project h u.project_slug) u w

module _ ⦃repo : Repository⦄ ⦃c : Contract repo⦄ where
  -- The user whose key the text of the path is read as was let in.
  abbrev pub AdmittedKey : Db → String → Db → Type 0
  AdmittedKey before id db = (k : String) × (c.key id ≡ some k) × Admitted before "admin" k db

  abbrev InTransaction : Db → String → Option Response → Db → Type 0
  InTransaction before id none db = AdmittedKey before id db
  InTransaction before id (some r) db = (db ≡ before) × (r.status ≢ 200)

  -- A response and the tables behind it: the user was let in, and only the last read can have failed
  -- since, or the tables are as they were.
  abbrev pub GrantOutcome : Db → String → Response → Db → Type 0
  GrantOutcome before id r db =
      (AdmittedKey before id db × ((r.status ≡ 200) ⊎ (r.status ≡ 500)))
      ⊎ ((db ≡ before) × (r.status ≢ 200))

  module _ (before : Db) (id : String) where
    granted_response-Ends :
        (r : Result (Unit {0})) (w : World)
        → AdmittedKey before id w.db
        → Ends before (InTransaction before id) (granted_response r, w)
    unfolding granted_response
    granted_response-Ends (ok _) w h = h
    granted_response-Ends (err _) w h = (refl, ground arith)

    module _ (k : String) (is_key : c.key id ≡ some k) where
      on_granted-Ends :
          (r : Result (Unit {0}) × World)
          → Answers
              (λ _ db.
                (ks : List String) × (read_all c.key (id ∷ []) ≡ some ks)
                × Granted (IsRemoved before k) ks "admin" db)
              r
          → Ends before (InTransaction before id) (on_granted r.0 r.1)
      unfolding on_granted ◌>>=◌ commit
      on_granted-Ends (ok _, w) (ks, keys, g) =
          let one : ks ≡ k ∷ [] = some-injective _ _ (sym keys ∙ rw is_key refl) in
          granted_response-Ends (driver w).0 (driver w).1 (
            subst (AdmittedKey before id) (sym (driver-db w)) (
              k,
              is_key,
              Granted-Admitted before k "admin" w.db refl
                  (subst (λ l. Granted (IsRemoved before k) l "admin" w.db) one g),
            ))
      on_granted-Ends (err user_not_found, w) g = (refl, ground arith)
      on_granted-Ends (err _, w) g = (refl, ground arith)

    on_deleted-Ends :
        (r : Result (Unit {0}) × World)
        → Answers
            (λ _ db.
              (k : String) × (c.key id ≡ some k)
              × Deleted (λ d. IsValid d × (d ≡ before)) (is_of_user k) db)
            r
        → Ends before (InTransaction before id) (on_deleted id r.0 r.1)
    unfolding on_deleted ◌>>=◌
    on_deleted-Ends (ok _, w) (k, is_key, d) =
        on_granted-Ends k is_key (repo.grant_access_tx (id ∷ []) "admin" w) (
          (c.grant_access_tx_ensures _ id [] "admin" refl).at w (Deleted-IsRemoved before k w.db d))
    on_deleted-Ends (err _, w) d = (refl, ground arith)

    grant-Ends :
        (w : World)
        → IsValid w.db
        → w.db ≡ before
        → Ends before (InTransaction before id) (grant id w)
    unfolding grant ◌>>=◌
    grant-Ends w valid same =
        on_deleted-Ends (repo.delete_by_user_id_tx id w)
          ((c.delete_by_user_id_tx_ensures (λ d. IsValid d × (d ≡ before)) id).at w (valid, same))

  module _ (h : AdminHandler) (before : Db) (id : String) where
    on_fetched-Outcome :
        (r : Result UserEntity) (w : World)
        → AdmittedKey before id w.db
        → let a = on_fetched h r w in GrantOutcome before id a.0 a.1.db
    unfolding on_fetched
    on_fetched-Outcome (ok u) w d =
        inl (subst (AdmittedKey before id) (sym (notify-db h u w)) d, inl refl)
    on_fetched-Outcome (err _) w d = inl (d, inr refl)

    after_grant-Outcome :
        (o : Option Response) (w : World)
        → InTransaction before id o w.db
        → let a = after_grant h id o w in GrantOutcome before id a.0 a.1.db
    unfolding after_grant ◌>>=◌
    after_grant-Outcome (some r) w k = inr k
    after_grant-Outcome none w d =
        on_fetched-Outcome (repo.get_by_id id w).0 (repo.get_by_id id w).1
          ((get_by_id-Keeps {P = AdmittedKey before id} id).at w d)

    granting-Outcome :
        (w : World)
        → IsValid w.db
        → w.db ≡ before
        → let a =
            (begin_tx >>= λ tx. in_tx tx (some internal_error) (grant id) >>= after_grant h id) w in
          GrantOutcome before id a.0 a.1.db
    unfolding ◌>>=◌
    granting-Outcome w valid same = after_grant-Outcome _ _ (
        transaction-Ends (InTransaction before id) (some internal_error) (grant id) w
          (same, ground arith)
          λ w' e.
            subst (λ d. Ends d (InTransaction before id) (grant id w')) (sym (e ∙ same))
              (grant-Ends before id w' (subst IsValid (sym e) valid) (e ∙ same)))

  -- On valid tables `handleGrant` either lets the user in, which leaves the tables valid and the user
  -- with access from "admin" and on no list and changes nothing else, and answers 200, or 500 where the
  -- last read fails; or it changes no table, and does not answer 200. So a 404 or a failed commit
  -- leaves no trace.
  pub handle_grant-outcome :
      (h : AdminHandler) (r : Request) (w : World)
      → IsValid w.db
      → GrantOutcome w.db (trim_space r.path_id) (handle_grant h r w).0 (handle_grant h r w).1.db
  unfolding handle_grant reply
  handle_grant-outcome h r w valid = elim (Bool-cases (str_eq (trim_space r.path_id) "")) [
    | inl missing ↦ rw missing (inr (refl, ground arith))
    | inr given ↦ rw given (granting-Outcome h w.db (trim_space r.path_id) w valid refl)
  ]

  -- Access and the removal leave the identifiers alone.
  Admitted-HasKeys :
      (before db : Db) (k : String)
      → HasKeys c.key before
      → Admitted before "admin" k db
      → HasKeys c.key db
  Admitted-HasKeys before db k h (valid, in_, (now, result)) = subst (HasKeys c.key) (sym result) (
      HasKeys-update c.key (listed (k ∷ [])) (grant_row now "admin")
        (keep (λ r. not (is_of_user k r)) before.waiting_list) (λ u. refl)
        (λ r m. (In-keep (λ r. not (is_of_user k r)) before.waiting_list m).0) h)

  GrantOutcome-Valid :
      {before db : Db} {id : String} (r : Response)
      → Valid c.key before
      → GrantOutcome before id r db
      → Valid c.key db
  GrantOutcome-Valid {before = before} {db = db} r v (inl ((k, is_key, done), _)) =
      (done.0, Admitted-HasKeys before db k v.1 done)
  GrantOutcome-Valid r v (inr (same, _)) = subst (Valid c.key) (sym same) v

  pub handle_grant-Valid : (h : AdminHandler) (r : Request) → Keeps (Valid c.key) (handle_grant h r)
  handle_grant-Valid h r = record {
    at = λ w v. GrantOutcome-Valid (handle_grant h r w).0 v (handle_grant-outcome h r w v.0);
  }
