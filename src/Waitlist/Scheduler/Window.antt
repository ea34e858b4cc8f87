-- ===== src/Waitlist/Scheduler/Window.antt =====
-- The window of the scheduler between two batches: how long a project rests.
use waitinglist.Prelude.{
  ◌≡◌, ◌≢◌, refl, sym, ap, subst, ◌∙◌, ℕ, ◌+◌, ◌≤◌, ◌<◌, arith, Bool, true, false, some, find_first,
}
use waitinglist.Prelude.Int.{pos}
use waitinglist.Model.{Time, Result, ok, err, Project}
use waitinglist.Model.Clock.{max_duration, since_window, is_zero}
use waitinglist.Store.{World, SchedulerRow}
use waitinglist.Store.Action.{reply, ◌>>=◌}
use waitinglist.Store.Transactions.{if-both}
use waitinglist.Sqlite.Scheduler.{has_key, value_or_zero}
use waitinglist.Waitlist.Scheduler.{
  Settings, on_last_success, unless_recent, is_recent, last_success_key, window_interval,
  process_project,
}
use waitinglist.Repository.{Repository}
use waitinglist.Repository.Contract.{Contract}

module _ ⦃repo : Repository⦄ ⦃c : Contract repo⦄ where
  module _ (cfg : Settings) (p : Project) (last window : ℕ)
      (set : window_interval cfg p ≡ pos window) (bound : window ≤ max_duration)
      (stamped : last ≢ 0) where
    is_recent-true :
        (w : World)
        → w.clock w.ticks < last + window
        → (is_recent (window_interval cfg p) last w).0 ≡ true
    unfolding is_recent
    is_recent-true w h = rw set (ground (arith, since_window (w.clock w.ticks) last window bound))

    is_recent-db : (w : World) → (is_recent (window_interval cfg p) last w).1.db ≡ w.db
    unfolding is_recent reply
    is_recent-db w = if-both (λ r. r.1.db ≡ w.db) (is_zero last) _ _ w refl refl

    resting :
        (recent : Bool) (w : World) → recent ≡ true → (unless_recent cfg p recent w).1.db ≡ w.db
    unfolding unless_recent reply
    resting true w h = refl
    resting false w h = absurd (cc)

    on_last_success-rests :
        (r : Result Time) (w : World)
        → ((t : Time) → r ≡ ok t → t ≡ last)
        → ((k : ℕ) → w.clock k < last + window)
        → (on_last_success cfg p r w).1.db ≡ w.db
    unfolding on_last_success ◌>>=◌ reply
    on_last_success-rests (err _) w same early = refl
    on_last_success-rests (ok t) w same early =
        subst (λ x. (on_last_success cfg p (ok x) w).1.db ≡ w.db) (sym (same t refl))
          (resting (is_recent (window_interval cfg p) last w).0
              (is_recent (window_interval cfg p) last w).1 (is_recent-true w (early w.ticks))
            ∙ is_recent-db w)

  -- A project rests after a success: as long as the clock stays below the recorded success plus the
  -- window, `processProject` changes no table, also where the driver fails.
  pub process_project-rests :
      (cfg : Settings) (p : Project) (w : World) (row : SchedulerRow) (window : ℕ)
      → window_interval cfg p ≡ pos window
      → window ≤ max_duration
      → find_first (has_key p.slug last_success_key) w.scheduler_state ≡ some row
      → row.value ≢ 0
      → ((k : ℕ) → w.clock k < row.value + window)
      → (process_project cfg p w).1.db ≡ w.db
  unfolding process_project ◌>>=◌ reply
  process_project-rests cfg p w row window set bound found stamped early =
      let last = repo.get_last_success p.slug last_success_key w in
      let l = c.get_last_success_read p.slug last_success_key w in
      if-both (λ r. r.1.db ≡ w.db) p.scheduler_disabled _ _ w refl
        (on_last_success-rests cfg p row.value window set bound stamped last.0 last.1
            (λ t e. l.stored t e ∙ ap value_or_zero found)
            (λ k. subst (λ c. c k < row.value + window) (sym l.clock) (early k))
          ∙ l.db)
