-- ===== src/Http/Admin/Digest.antt =====
-- internal/handler/admin.go: the digest that an administrator sends at once.
pub mod ReadOnly
use Prim.Native.String.{◌++◌ as append}
use waitinglist.Prelude.{
  String, Option, none, some, List, map, if◌then◌else◌, not, length, is_empty,
}
use waitinglist.Prelude.Text.{str_eq, trim_space}
use waitinglist.Model.{Time, Result, ok, err, Project, UserEntity, WaitingListAdminRow}
use waitinglist.Notifier.Message.{full_state, format_digest_time, DigestData}
use waitinglist.Notifier.Compose.{enlisted_entry, granted_entry, if_empty, digest_from}
use waitinglist.Notifier.Send.{send_digest}
use waitinglist.Store.Monad.{time_now}
use waitinglist.Http.Types.{Request, Response, query_get, sent_to, write_json, write_error}
use waitinglist.Store.Action.{Action, reply, ◌>>=◌}
use waitinglist.Http.Enlist.{internal_error}
use waitinglist.Http.Admin.Params.{AdminHandler, find_project}
use waitinglist.Repository.{Repository}

full_digest : Project → Time → List WaitingListAdminRow → List UserEntity → DigestData
full_digest p now rows users = record {
  project_name = p.name;
  period_start = full_state;
  period_end = format_digest_time now;
  new_enlisted = map enlisted_entry rows;
  new_granted = map granted_entry users;
  enlisted_count = length (map enlisted_entry rows);
  granted_count = length (map granted_entry users);
}

on_sent : Project → Result (Unit {0}) → Action Response
on_sent p (err _) = reply (write_error 500 "failed to send digest")
on_sent p (ok _) = reply (write_json 200 (sent_to (length p.digest.recipients)))

mail_digest : Project → List WaitingListAdminRow → List UserEntity → Result Time → Action Response
unfolding on_sent full_digest
mail_digest p rows users (err _) = reply internal_error
mail_digest p rows users (ok now) = do
  sent ←
      send_digest p.digest.recipients (digest_from p)
        (if_empty p.digest.subject (append p.name " — Full State Digest"))
        (full_digest p now rows users)
  on_sent p sent

on_waitlist : Project → List UserEntity → Result (List WaitingListAdminRow) → Action Response
unfolding mail_digest
on_waitlist p users (err _) = reply internal_error
on_waitlist p users (ok rows) = do now ← time_now; mail_digest p rows users now

module _ ⦃repo : Repository⦄ where
  open repo use {list_all_with_access, list_all_joined}

  on_access : Project → String → Result (List UserEntity) → Action Response
  unfolding on_waitlist
  on_access p slug (err _) = reply internal_error
  on_access p slug (ok users) = do rows ← list_all_joined slug; on_waitlist p users rows

  on_project : String → Option Project → Action Response
  unfolding on_access
  on_project slug none = reply (write_error 400 "unknown project")
  on_project slug (some p) =
      if is_empty p.digest.recipients
      then reply (write_error 400 "digest not configured for project")
      else do users ← list_all_with_access slug; on_access p slug users

  -- `handleSendDigest`
  pub handle_send_digest : AdminHandler → Request → Action Response
  unfolding on_project
  handle_send_digest h r =
      let slug = trim_space (query_get r "project") in
      if not h.has_digest_sender
      then reply (write_error 400 "SMTP not configured")
      else if str_eq slug ""
      then reply (write_error 400 "project query parameter is required")
      else on_project slug (find_project h slug)
