-- ===== src/Waitlist/Scheduler/Steps.antt =====
-- The steps of `processProject`: what each keeps, and what is due.
use waitinglist.Prelude.{
  ◌≡◌, refl, sym, ◌∙◌, subst, Bool, true, false, List, [], ◌∷◌, In, here, there,
}
use waitinglist.Model.{Time, Duration, Result, ok, err, UserEntity, WaitingListEntry, Project}
use waitinglist.Store.{Db, World}
use waitinglist.Store.Keeps.{Keeps, action_rules, Keeps-then, Keeps-reply}
use waitinglist.Store.Action.{◌>>=◌}
use waitinglist.Notifier.Send.Reads.{notify_access_granted-db}
use waitinglist.Waitlist.Scheduler.{
  Settings, is_within, take_if, due, notify_all, on_users, after_commit, is_recent,
}
use waitinglist.Repository.{Repository}
use waitinglist.Repository.Contract.{Contract}
use waitinglist.Repository.Reading.{get_by_ids-Keeps}

notify_all-db : (p : Project) (us : List UserEntity) (w : World) → (notify_all p us w).db ≡ w.db
unfolding notify_all
notify_all-db p [] w = refl
notify_all-db p (u ∷ us) w = notify_all-db p us _ ∙ notify_access_granted-db u p w

In-take_if :
    {x : WaitingListEntry} (e : WaitingListEntry) (young : Bool) (rest es : List WaitingListEntry)
    → ((y : WaitingListEntry) → In y rest → In y es)
    → In x (take_if e young rest)
    → In x (e ∷ es)
unfolding take_if
In-take_if e true rest es sub m = there (sub _ m)
In-take_if e false rest es sub (here same) = here same
In-take_if e false rest es sub (there m) = there (sub _ m)

-- The loop only leaves entries out.
pub due-In :
    (window : Duration) (es : List WaitingListEntry) (w : World) (e : WaitingListEntry)
    → In e (due window es w).0
    → In e es
unfolding due ◌>>=◌
due-In window [] w e m = m
due-In window (x ∷ es) w e m =
    let young = is_within window x.weighted_created_at w in
    In-take_if x young.0 (due window es young.1).0 es (due-In window es young.1) m

module _ ⦃repo : Repository⦄ ⦃c : Contract repo⦄ where
  module _ {P : Db → Type 0} where
    pub is_within-Keeps : (window : Duration) (t : Time) → Keeps P (is_within window t)
    is_within-Keeps window t = record { at = λ w h. h }

    pub due-Keeps : (window : Duration) (es : List WaitingListEntry) → Keeps P (due window es)
    unfolding due
    due-Keeps window [] = search action_rules
    due-Keeps window (e ∷ es) =
        Keeps-then _ _ (is_within-Keeps window e.weighted_created_at)
          λ young. Keeps-then _ _ (due-Keeps window es) λ rest. Keeps-reply _

    pub is_recent-Keeps : (window : Duration) (t : Time) → Keeps P (is_recent window t)
    unfolding is_recent
    is_recent-Keeps window t = search (action_rules, is_within-Keeps)

    on_users-Keeps : (p : Project) (r : Result (List UserEntity)) → Keeps P (on_users p r)
    unfolding on_users
    on_users-Keeps p (ok us) = record { at = λ w h. subst P (sym (notify_all-db p us w)) h }
    on_users-Keeps p (err _) = record { at = λ w h. h }

    pub after_commit-Keeps :
        (cfg : Settings) (p : Project) (es : List WaitingListEntry) (done : Bool)
        → Keeps P (after_commit cfg p es done)
    unfolding after_commit
    after_commit-Keeps cfg p es false = search action_rules
    after_commit-Keeps cfg p es true =
        search (action_rules, get_by_ids-Keeps, on_users-Keeps) depth 9
