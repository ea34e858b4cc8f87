-- ===== src/Http/Admin/Access.antt =====
-- internal/handler/admin.go: the handlers that grant, revoke, and remove from the waiting list.
pub mod Safety
pub mod Deleting
pub mod Revoking
pub mod Granting
use Prim.Native.String.{len}
use waitinglist.Prelude.{String, Option, none, some, [], ◌∷◌, ltb, if◌then◌else◌}
use waitinglist.Prelude.Text.{str_eq, trim_space}
use waitinglist.Model.{
  Result, ok, err, user_not_found, revoke_reason_required, waiting_list_entry_not_found, UserEntity,
  Project,
}
use waitinglist.Notifier.Send.{notify_access_granted}
use waitinglist.Store.{World}
use waitinglist.Http.Types.{Request, Response, no_body, user, write_json, write_error}
use waitinglist.Store.Action.{
  Action, reply, ◌>>=◌, Ending, committed, rolled_back, begin_tx, commit, in_tx,
}
use waitinglist.Http.Enlist.{internal_error}
use waitinglist.Http.Admin.Params.{AdminHandler, find_project, max_revoke_reason_len}
use waitinglist.Repository.{Repository}

-- How the transaction of `handleGrant` ended: a response, or nothing to say yet.
granted_response : Result (Unit {0}) → Ending (Option Response)
granted_response (err _) = rolled_back (some internal_error)
granted_response (ok _) = committed none

on_granted : Result (Unit {0}) → Action (Ending (Option Response))
unfolding granted_response
on_granted (err user_not_found) = reply (rolled_back (some (write_error 404 "user not found")))
on_granted (err _) = reply (rolled_back (some internal_error))
on_granted (ok _) = do c ← commit; reply (granted_response c)

notify_project : Option Project → UserEntity → World → World
notify_project none u w = w
notify_project (some p) u w = notify_access_granted u p w

notify : AdminHandler → UserEntity → World → World
unfolding notify_project
notify h u w = if h.has_notifier then notify_project (find_project h u.project_slug) u w else w

on_fetched : AdminHandler → Result UserEntity → Action Response
unfolding notify
on_fetched h (err _) w = (internal_error, w)
on_fetched h (ok u) w = (write_json 200 (user u), notify h u w)

answer_user : Result UserEntity → Action Response
answer_user (err _) = reply internal_error
answer_user (ok u) = reply (write_json 200 (user u))

on_removed : Result (Unit {0}) → Action Response
on_removed (err waiting_list_entry_not_found) =
    reply (write_error 404 "waiting list entry not found")
on_removed (err _) = reply internal_error
on_removed (ok _) = reply (write_json 204 no_body)

module _ ⦃repo : Repository⦄ where
  open repo use {
    grant_access_tx, revoke_access_tx, get_by_id, delete_by_id_tx, delete_by_user_id_tx,
  }

  on_deleted : String → Result (Unit {0}) → Action (Ending (Option Response))
  unfolding on_granted
  on_deleted id (err _) = reply (rolled_back (some internal_error))
  on_deleted id (ok _) = do g ← grant_access_tx (id ∷ []) "admin"; on_granted g

  -- what `handleGrant` does in its transaction
  pub grant : String → Action (Ending (Option Response))
  unfolding on_deleted
  grant id = do d ← delete_by_user_id_tx id; on_deleted id d

  after_grant : AdminHandler → String → Option Response → Action Response
  unfolding on_fetched
  after_grant h id (some r) = reply r
  after_grant h id none = do u ← get_by_id id; on_fetched h u

  -- `handleGrant`
  pub handle_grant : AdminHandler → Request → Action Response
  unfolding grant after_grant
  handle_grant h r =
      let id = trim_space r.path_id in
      if str_eq id "" then reply (write_error 400 "id is required") else do
        tx ← begin_tx
        ended ← in_tx tx (some internal_error) (grant id)
        after_grant h id ended

  on_revoked : String → Result (Unit {0}) → Action Response
  unfolding answer_user
  on_revoked id (err user_not_found) = reply (write_error 404 "user not found")
  on_revoked id (err revoke_reason_required) = reply (write_error 400 "reason is required")
  on_revoked id (err _) = reply internal_error
  on_revoked id (ok _) = do u ← get_by_id id; answer_user u

  -- the reason is measured in bytes
  on_reason : String → String → String → Action Response
  unfolding on_revoked
  on_reason admin id reason =
      if str_eq reason ""
      then reply (write_error 400 "reason is required")
      else if ltb max_revoke_reason_len (len reason)
      then reply (write_error 400 "reason exceeds 500 characters")
      else do done ← revoke_access_tx id reason admin; on_revoked id done

  on_body : String → String → Option String → Action Response
  unfolding on_reason
  on_body admin id none = reply (write_error 400 "invalid JSON body")
  on_body admin id (some reason) = on_reason admin id (trim_space reason)

  -- `handleRevoke`, for the admin that the context names
  unfoldable pub handle_revoke : String → Request → Action Response
  unfolding on_body
  handle_revoke admin r =
      let id = trim_space r.path_id in
      if str_eq id ""
      then reply (write_error 400 "id is required")
      else on_body admin id r.revoke_body

  -- `handleDeleteWaitlist`
  pub handle_delete_waitlist : Request → Action Response
  unfolding on_removed
  handle_delete_waitlist r =
      let id = trim_space r.path_id in
      if str_eq id ""
      then reply (write_error 400 "id is required")
      else do d ← delete_by_id_tx id; on_removed d
