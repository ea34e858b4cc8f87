-- ===== src/Http/Admin/Access/Safety.antt =====
-- The handlers that grant, revoke and remove: what they keep, and what their answers mean.
use Prim.Native.String.{len}
use waitinglist.Http.Admin.Params.{max_revoke_reason_len}
use waitinglist.Prelude.Text.{trim_space, str_eq}
use waitinglist.Repository.Closed.{with_revoked-Valid, without_entry-Valid}
use waitinglist.Prelude.{◌≡◌, ltb, String, Option, none, some}
use waitinglist.Model.{
  Time, Result, ok, err, user_not_found, revoke_reason_required, waiting_list_entry_not_found,
  UserEntity,
}
use waitinglist.Store.{Db}
use waitinglist.Store.Keeps.{Keeps, action_rules, Keeps-if, Keeps-reply, Keeps-then}
use waitinglist.Http.Types.{Request, write_error}
use waitinglist.Http.Admin.Access.{
  on_revoked, on_reason, on_body, handle_revoke, on_removed, handle_delete_waitlist, answer_user,
}
use waitinglist.Repository.{Repository}
use waitinglist.Repository.Keys.{Valid}
use waitinglist.Repository.Contract.{Contract, with_revoked, without_entry}
use waitinglist.Repository.Reading.{get_by_id-Keeps}

module _ ⦃repo : Repository⦄ ⦃c : Contract repo⦄ where
  module _ {P : Db → Type 0} where
    answer_user-Keeps : (r : Result UserEntity) → Keeps P (answer_user r)
    unfolding answer_user
    answer_user-Keeps (ok u) = search action_rules
    answer_user-Keeps (err _) = search action_rules

    on_revoked-Keeps : (id : String) (r : Result (Unit {0})) → Keeps P (on_revoked id r)
    unfolding on_revoked
    on_revoked-Keeps id (err user_not_found) = search action_rules
    on_revoked-Keeps id (err revoke_reason_required) = search action_rules
    on_revoked-Keeps id (err _) = search action_rules
    on_revoked-Keeps id (ok _) = search (action_rules, get_by_id-Keeps, answer_user-Keeps)

    on_removed-Keeps : (r : Result (Unit {0})) → Keeps P (on_removed r)
    unfolding on_removed
    on_removed-Keeps (err waiting_list_entry_not_found) = search action_rules
    on_removed-Keeps (err _) = search action_rules
    on_removed-Keeps (ok _) = search action_rules

  -- The revocation of that user keeps the property.
  abbrev IsKept : (Db → Type 0) → String → String → Type 0
  IsKept P id by =
      (reason k : String) (now : Time) (db : Db)
      → c.key id ≡ some k
      → P db
      → P (with_revoked k now by reason db)

  -- Whatever the revocation of the path's user keeps, `handleRevoke` keeps.
  on_body-Keeps :
      (P : Db → Type 0) (admin id : String)
      → IsKept P id admin
      → (b : Option String) → Keeps P (on_body admin id b)
  unfolding on_body on_reason
  on_body-Keeps P admin id closed none = search action_rules
  on_body-Keeps P admin id closed (some reason) =
      let text = trim_space reason in
      Keeps-if (str_eq text "") _ _ (Keeps-reply (write_error 400 "reason is required")) (
        Keeps-if (ltb max_revoke_reason_len (len text)) _ _
          (Keeps-reply (write_error 400 "reason exceeds 500 characters"))
          (Keeps-then _ _ (c.revoke_access_tx_keeps P id text admin (closed text))
            λ done. on_revoked-Keeps id done))

  pub handle_revoke-Keeps :
      (P : Db → Type 0) (admin : String) (r : Request)
      → IsKept P (trim_space r.path_id) admin
      → Keeps P (handle_revoke admin r)
  unfolding handle_revoke
  handle_revoke-Keeps P admin r closed =
      let kept = on_body-Keeps P admin (trim_space r.path_id) closed in search (action_rules, kept)

  -- `handleRevoke` keeps the tables valid, whoever asks and whatever fails.
  pub handle_revoke-Valid :
      (admin : String) (r : Request) → Keeps (Valid c.key) (handle_revoke admin r)
  handle_revoke-Valid admin r =
      handle_revoke-Keeps (Valid c.key) admin r
        λ reason k now db is_key v. with_revoked-Valid c.key db v k admin reason now

  -- Whatever the removal of an entry keeps, `handleDeleteWaitlist` keeps.
  pub handle_delete_waitlist-Keeps :
      (P : Db → Type 0) (r : Request)
      → ((k : String) (db : Db) → P db → P (without_entry k db))
      → Keeps P (handle_delete_waitlist r)
  unfolding handle_delete_waitlist
  handle_delete_waitlist-Keeps P r closed = Keeps-if _ _ _ (Keeps-reply _) (
      Keeps-then _ _ (c.delete_by_id_tx_keeps P (trim_space r.path_id) (λ k db is_key. closed k db))
        λ d. on_removed-Keeps d)

  -- `handleDeleteWaitlist` keeps the tables valid.
  pub handle_delete_waitlist-Valid : (r : Request) → Keeps (Valid c.key) (handle_delete_waitlist r)
  handle_delete_waitlist-Valid r =
      handle_delete_waitlist-Keeps (Valid c.key) r λ k db v. without_entry-Valid c.key db v k
