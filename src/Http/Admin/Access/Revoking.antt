-- ===== src/Http/Admin/Access/Revoking.antt =====
-- `handleRevoke` and `handleDeleteWaitlist`: what their answers mean for the tables.
use Prim.Native.String.{len}
use waitinglist.Http.Admin.Params.{max_revoke_reason_len}
use waitinglist.Prelude.{ltb, ◌≡◌, refl, sym, subst, ℕ, String, some, arith}
use waitinglist.Prelude.Text.{str_eq, trim_space}
use waitinglist.Model.{Result, ok, err, user_not_found, revoke_reason_required, UserEntity}
use waitinglist.Store.{Db, World}
use waitinglist.Store.Action.{reply, ◌>>=◌}
use waitinglist.Store.Ensures.{Answers}
use waitinglist.Store.Transactions.{if-both}
use waitinglist.Http.Types.{Request, Response, write_error}
use waitinglist.Http.Admin.Access.{answer_user, on_revoked, on_reason, on_body, handle_revoke}
use waitinglist.Invariant.Revoke.{Revoked}
use waitinglist.Repository.{Repository}
use waitinglist.Repository.Contract.{Contract}
use waitinglist.Repository.Reading.{get_by_id-Keeps}

-- A success shows that the user is revoked.
abbrev Shows : (Db → Type 0) → ℕ → Response × World → Type 0
Shows Q status (r, w) = (r.status ≡ status) → Q w.db

clash : ◌≡◌ {A = ℕ} 400 200 → ⊥
clash e = omega (arith, e)

module _ ⦃repo : Repository⦄ ⦃c : Contract repo⦄ where
  -- The user whose key the text of the path is read as is revoked.
  abbrev pub RevokedKey : Db → String → String → String → Db → Type 0
  RevokedKey before id by reason db =
      (k : String) × (c.key id ≡ some k) × Revoked before k by reason db

  module _ (before : Db) (admin id : String) where
    answer_user-Shows :
        (Q : Db → Type 0) (r : Result UserEntity) (w : World)
        → Q w.db
        → Shows Q 200 (answer_user r w)
    unfolding answer_user reply
    answer_user-Shows Q (ok u) w h e = h
    answer_user-Shows Q (err _) w h e = absurd (ground arith)

    on_revoked-Shows :
        (reason : String) (r : Result (Unit {0}) × World)
        → Answers (λ _. RevokedKey before id admin reason) r
        → Shows (RevokedKey before id admin reason) 200 (on_revoked id r.0 r.1)
    unfolding on_revoked ◌>>=◌ reply
    on_revoked-Shows reason (ok _, w) h =
        answer_user-Shows (RevokedKey before id admin reason) (repo.get_by_id id w).0
          (repo.get_by_id id w).1
          ((get_by_id-Keeps {P = RevokedKey before id admin reason} id).at w h)
    on_revoked-Shows reason (err user_not_found, w) h = λ e. absurd (ground arith)
    on_revoked-Shows reason (err revoke_reason_required, w) h = λ e. absurd (ground arith)
    on_revoked-Shows reason (err _, w) h = λ e. absurd (ground arith)

    on_reason-Shows :
        (reason : String) (w : World)
        → w.db ≡ before
        → Shows (RevokedKey before id admin reason) 200 (on_reason admin id reason w)
    unfolding on_reason ◌>>=◌ reply
    on_reason-Shows reason w same =
        let Q = Shows (RevokedKey before id admin reason) 200 in
        let blank = reply (write_error 400 "reason is required") in
        let long = reply (write_error 400 "reason exceeds 500 characters") in
        let revoking = (do done ← repo.revoke_access_tx id reason admin; on_revoked id done) in
        if-both Q (str_eq reason "") blank _ w (λ e. absurd (clash e))
          (if-both Q (ltb max_revoke_reason_len (len reason)) long revoking w
            (λ e. absurd (clash e))
            (on_revoked-Shows reason (repo.revoke_access_tx id reason admin w)
              ((c.revoke_access_tx_ensures before id reason admin).at w same)))

  -- Where `handleRevoke` answers 200, the user of the path has no access any more, and the tables name
  -- the admin and the trimmed reason; nothing else has changed.
  pub handle_revoke-Revoked :
      (admin : String) (r : Request) (reason : String) (w : World)
      → r.revoke_body ≡ some reason
      → (handle_revoke admin r w).0.status ≡ 200
      → RevokedKey w.db
          (trim_space r.path_id)
          admin
          (trim_space reason)
          (handle_revoke admin r w).1.db
  unfolding handle_revoke on_body reply
  handle_revoke-Revoked admin r reason w body =
      if-both (Shows (RevokedKey w.db (trim_space r.path_id) admin (trim_space reason)) 200)
        (str_eq (trim_space r.path_id) "") _ _ w (λ e. absurd (ground arith))
        (subst
          (λ b.
            Shows (RevokedKey w.db (trim_space r.path_id) admin (trim_space reason)) 200
              (on_body admin (trim_space r.path_id) b w))
          (sym body) (on_reason-Shows w.db admin (trim_space r.path_id) (trim_space reason) w refl))
