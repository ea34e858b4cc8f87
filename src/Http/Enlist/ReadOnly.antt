-- ===== src/Http/Enlist/ReadOnly.antt =====
-- The public handlers that read: whatever holds of the tables before them holds after them.
use waitinglist.Prelude.{String, Option, none, some, List, [], ◌∷◌}
use waitinglist.Model.{Project, Result, ok, err, UserInfo, WaitingListEntry}
use waitinglist.Store.{Db}
use waitinglist.Repository.{Repository}
use waitinglist.Repository.Contract.{Contract}
use waitinglist.Repository.Reading.{get_user_info_by_emails-Keeps, get_all-Keeps}
use waitinglist.Store.Keeps.{Keeps, action_rules, Keeps-then}
use waitinglist.Http.Types.{Request}
use waitinglist.Http.Enlist.{
  on_entries, handle_get_all, on_infos, on_checked, on_emails, handle_get_users_by_email,
  check_emails,
}

module _ ⦃repo : Repository⦄ ⦃c : Contract repo⦄ {P : Db → Type 0} where
  on_entries-Keeps : (r : Result (List WaitingListEntry)) → Keeps P (on_entries r)
  unfolding on_entries
  on_entries-Keeps (ok es) = search action_rules
  on_entries-Keeps (err _) = search action_rules

  pub handle_get_all-Keeps : (p : Option Project) (r : Request) → Keeps P (handle_get_all p r)
  unfolding handle_get_all
  handle_get_all-Keeps none r = search action_rules
  handle_get_all-Keeps (some p) r = Keeps-then _ _ (get_all-Keeps p.slug) on_entries-Keeps

  on_infos-Keeps : (r : Result (List UserInfo)) → Keeps P (on_infos r)
  unfolding on_infos
  on_infos-Keeps (ok es) = search action_rules
  on_infos-Keeps (err _) = search action_rules

  on_checked-Keeps : (p : Project) (c : Option String × List String) → Keeps P (on_checked p c)
  unfolding on_checked
  on_checked-Keeps p (some complaint, es) = search action_rules
  on_checked-Keeps p (none, es) =
      Keeps-then _ _ (get_user_info_by_emails-Keeps p.slug es) on_infos-Keeps

  on_emails-Keeps : (p : Project) (es : List String) → Keeps P (on_emails p es)
  unfolding on_emails
  on_emails-Keeps p [] = search action_rules
  on_emails-Keeps p (e ∷ es) = on_checked-Keeps p (check_emails (e ∷ es))

  pub handle_get_users_by_email-Keeps :
      (p : Option Project) (r : Request) → Keeps P (handle_get_users_by_email p r)
  unfolding handle_get_users_by_email
  handle_get_users_by_email-Keeps none r = search action_rules
  handle_get_users_by_email-Keeps (some p) r = on_emails-Keeps p (r.query "email")
