-- ===== src/Http/Admin/Digest/ReadOnly.antt =====
-- The digest sent at once only reads: whatever holds of the tables before it holds after it.
use waitinglist.Prelude.{String, Option, none, some, List}
use waitinglist.Model.{Time, Project, Result, ok, err, UserEntity, WaitingListAdminRow}
use waitinglist.Store.{Db}
use waitinglist.Repository.{Repository}
use waitinglist.Repository.Contract.{Contract}
use waitinglist.Repository.Reading.{list_all_with_access-Keeps, list_all_joined-Keeps}
use waitinglist.Store.Keeps.{Keeps, action_rules, Keeps-then, Keeps-time_now}
use waitinglist.Notifier.Send.Reads.{send_digest-Keeps}
use waitinglist.Http.Types.{Request}
use waitinglist.Http.Admin.Params.{AdminHandler}
use waitinglist.Http.Admin.Digest.{
  on_sent, mail_digest, on_waitlist, on_access, on_project, handle_send_digest,
}

module _ ⦃repo : Repository⦄ ⦃c : Contract repo⦄ {P : Db → Type 0} where
  on_sent-Keeps : (p : Project) (r : Result (Unit {0})) → Keeps P (on_sent p r)
  unfolding on_sent
  on_sent-Keeps p (ok _) = search action_rules
  on_sent-Keeps p (err _) = search action_rules

  mail_digest-Keeps :
      (p : Project) (rows : List WaitingListAdminRow) (us : List UserEntity) (t : Result Time)
      → Keeps P (mail_digest p rows us t)
  unfolding mail_digest
  mail_digest-Keeps p rows us (err _) = search action_rules
  mail_digest-Keeps p rows us (ok now) =
      Keeps-then _ _ (send_digest-Keeps _ _ _ _) (on_sent-Keeps p)

  on_waitlist-Keeps :
      (p : Project) (us : List UserEntity) (r : Result (List WaitingListAdminRow))
      → Keeps P (on_waitlist p us r)
  unfolding on_waitlist
  on_waitlist-Keeps p us (err _) = search action_rules
  on_waitlist-Keeps p us (ok rows) = Keeps-then _ _ Keeps-time_now (mail_digest-Keeps p rows us)

  on_access-Keeps :
      (p : Project) (slug : String) (r : Result (List UserEntity)) → Keeps P (on_access p slug r)
  unfolding on_access
  on_access-Keeps p slug (err _) = search action_rules
  on_access-Keeps p slug (ok us) =
      Keeps-then _ _ (list_all_joined-Keeps slug) (on_waitlist-Keeps p us)

  on_project-Keeps : (slug : String) (o : Option Project) → Keeps P (on_project slug o)
  unfolding on_project
  on_project-Keeps slug none = search action_rules
  on_project-Keeps slug (some p) =
      search (action_rules, list_all_with_access-Keeps, on_access-Keeps) depth 9

  pub handle_send_digest-Keeps : (h : AdminHandler) (r : Request) → Keeps P (handle_send_digest h r)
  unfolding handle_send_digest
  handle_send_digest-Keeps h r = search (action_rules, on_project-Keeps) depth 9
