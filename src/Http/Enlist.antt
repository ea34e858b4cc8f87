-- ===== src/Http/Enlist.antt =====
-- internal/handler/waitinglist.go: the public handlers.
pub mod ReadOnly
pub mod Outcome
pub mod Safety
pub mod Validation
pub mod Asking
use waitinglist.Prelude.{String, false, not, Option, none, some, List, [], ◌∷◌, if◌then◌else◌}
use waitinglist.Prelude.Text.{str_eq, trim_space, contains_code}
use waitinglist.Model.{
  Result, ok, err, user_not_found, already_on_waiting_list, Project, UserEntity, WaitingListEntry,
  UserInfo,
}
use waitinglist.Http.Types.{
  AddToWaitingListRequest, Request, Response, added, message, entries, user_infos, write_json,
  write_error,
}
use waitinglist.Store.Action.{
  Action, reply, ◌>>=◌, Ending, committed, rolled_back, begin_tx, commit, in_tx,
}
use waitinglist.Http.Net.{client_ip}
use waitinglist.Repository.{Repository}

-- `validateWaitingListRequest`: the message of the first complaint
unfoldable pub validate_waiting_list_request : AddToWaitingListRequest → Option String
validate_waiting_list_request req =
    if str_eq (trim_space req.firstname) ""
    then some "firstname is required"
    else if str_eq (trim_space req.lastname) ""
    then some "lastname is required"
    else if str_eq (trim_space req.email) ""
    then some "email is required"
    else if not (contains_code b'@' req.email)
    then some "email must contain @"
    else none

abbrev pub internal_error : Response
internal_error = write_error 500 "internal server error"

on_commit : UserEntity → WaitingListEntry → Result (Unit {0}) → Action (Ending Response)
on_commit u e (err _) = reply (rolled_back internal_error)
on_commit u e (ok _) = reply (committed (write_json 201 (added u e)))

on_added : UserEntity → Result WaitingListEntry → Action (Ending Response)
unfolding on_commit
on_added u (err already_on_waiting_list) =
    reply (rolled_back (write_error 409 "user is already on the waiting list"))
on_added u (err _) = reply (rolled_back internal_error)
on_added u (ok e) = do c ← commit; on_commit u e c

-- the literal `&model.UserEntity{…}`
pub new_user : Project → Request → AddToWaitingListRequest → UserEntity
new_user p r req = record {
  id = "";
  project_slug = p.slug;
  firstname = req.firstname;
  lastname = req.lastname;
  email = req.email;
  has_access = false;
  created_at = 0;
  ip_address = some (client_ip r);
  access_granted_at = none;
  access_granted_by = none;
  access_revoked_at = none;
  access_revoked_by = none;
  access_revoke_reason = none;
}

on_entries : Result (List WaitingListEntry) → Action Response
on_entries (err _) = reply internal_error
on_entries (ok es) = reply (write_json 200 (entries es))

-- the loop that trims and checks the emails: the message of the first complaint, or the emails
unfoldable pub check_emails : List String → Option String × List String
check_emails [] = (none, [])
check_emails (e ∷ es) =
    let trimmed = trim_space e in
    let (complaint, rest) = check_emails es in
    if str_eq trimmed ""
    then (some "email must not be empty", [])
    else if not (contains_code b'@' trimmed)
    then (some "email must contain @", [])
    else (complaint, trimmed ∷ rest)

on_infos : Result (List UserInfo) → Action Response
on_infos (err _) = reply internal_error
on_infos (ok us) = reply (write_json 200 (user_infos us))

module _ ⦃repo : Repository⦄ where
  open repo use {create_tx, get_by_email_tx, get_user_info_by_emails, add, get_all}

  -- the end of `handleAdd`, for a user without access
  enqueue : Project → UserEntity → Action (Ending Response)
  unfolding on_added
  enqueue p u = do e ← add p.slug u.id; on_added u e

  on_created : Project → Result UserEntity → Action (Ending Response)
  unfolding enqueue
  on_created p (err _) = reply (rolled_back internal_error)
  on_created p (ok u) = enqueue p u

  on_found :
      Project → Request → AddToWaitingListRequest → Result UserEntity → Action (Ending Response)
  unfolding on_created new_user
  on_found p r req (err user_not_found) = do u ← create_tx (new_user p r req); on_created p u
  on_found p r req (err _) = reply (rolled_back internal_error)
  on_found p r req (ok u) =
      if u.has_access
      then reply (rolled_back (write_json 205 (message "user already has access")))
      else enqueue p u

  -- what `handleAdd` does in its transaction
  pub enlist : Project → Request → AddToWaitingListRequest → Action (Ending Response)
  unfolding on_found
  enlist p r req = do found ← get_by_email_tx p.slug req.email; on_found p r req found

  on_valid : Project → Request → AddToWaitingListRequest → Option String → Action Response
  unfolding enlist
  on_valid p r req (some complaint) = reply (write_error 400 complaint)
  on_valid p r req none = do tx ← begin_tx; in_tx tx internal_error (enlist p r req)

  on_decoded : Project → Request → Option AddToWaitingListRequest → Action Response
  unfolding on_valid
  on_decoded p r none = reply (write_error 400 "invalid JSON body")
  on_decoded p r (some req) = on_valid p r req (validate_waiting_list_request req)

  -- `handleAdd`
  unfoldable pub handle_add : Option Project → Request → Action Response
  unfolding on_decoded
  handle_add none r = reply (write_error 400 "project identification required")
  handle_add (some p) r = on_decoded p r r.add_body

  -- `handleGetAll`
  pub handle_get_all : Option Project → Request → Action Response
  unfolding on_entries
  handle_get_all none r = reply (write_error 400 "project identification required")
  handle_get_all (some p) r = do es ← get_all p.slug; on_entries es

  on_checked : Project → Option String × List String → Action Response
  unfolding on_infos
  on_checked p (some complaint, _) = reply (write_error 400 complaint)
  on_checked p (none, emails) = do us ← get_user_info_by_emails p.slug emails; on_infos us

  on_emails : Project → List String → Action Response
  unfolding on_checked check_emails
  on_emails p [] = reply (write_error 400 "email query parameter is required")
  on_emails p (e ∷ es) = on_checked p (check_emails (e ∷ es))

  -- `handleGetUsersByEmail`
  pub handle_get_users_by_email : Option Project → Request → Action Response
  unfolding on_emails
  handle_get_users_by_email none r = reply (write_error 400 "project identification required")
  handle_get_users_by_email (some p) r = on_emails p (r.query "email")
