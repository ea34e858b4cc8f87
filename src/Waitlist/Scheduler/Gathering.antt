-- ===== src/Waitlist/Scheduler/Gathering.antt =====
-- internal/waitlist/waitlist.go, `processProject` in two halves: it reads a batch, each statement for
-- itself, and lets it in, in one transaction. Between the two the tables may change.
use waitinglist.Prelude.{
  ◌≡◌, refl, String, Bool, true, false, some, none, List, [], if◌then◌else◌, In, not-In-nil, subst,
}
use waitinglist.Model.{Time, Result, ok, err, Project, WaitingListEntry}
use waitinglist.Store.{Db, World}
use waitinglist.Store.Action.{Action, reply, ◌>>=◌}
use waitinglist.Store.Transactions.{if-both}
use waitinglist.Repository.{Repository}
use waitinglist.Repository.Read.{Read, AllRead, rows_of}
use waitinglist.Repository.Contract.{Contract}
use waitinglist.Repository.Reading.{get_with_offset_limit-Keeps, get_last_success-Keeps}
use waitinglist.Waitlist.Scheduler.{
  Settings, batch_size, window_interval, due, is_recent, last_success_key, run_batch, on_entries,
  unless_recent, on_last_success, process_project,
}
use waitinglist.Waitlist.Scheduler.Steps.{due-In, due-Keeps, is_recent-Keeps}

module _ ⦃repo : Repository⦄ where
  open repo use {get_with_offset_limit, get_last_success}

  unfoldable pub gather_entries :
      Settings → Project → Result (List WaitingListEntry) → Action (List WaitingListEntry)
  gather_entries cfg p (err _) = reply []
  gather_entries cfg p (ok es) = due (window_interval cfg p) es

  unfoldable pub gather_unless : Settings → Project → Bool → Action (List WaitingListEntry)
  unfolding gather_entries
  gather_unless cfg p true = reply []
  gather_unless cfg p false = do
    es ← get_with_offset_limit p.slug none (some (batch_size cfg p))
    gather_entries cfg p es

  unfoldable pub gather_since : Settings → Project → Result Time → Action (List WaitingListEntry)
  unfolding gather_unless is_recent
  gather_since cfg p (err _) = reply []
  gather_since cfg p (ok last) = do
    recent ← is_recent (window_interval cfg p) last
    gather_unless cfg p recent

  -- the first half: no entry, where `processProject` returns early
  unfoldable pub gather : Settings → Project → Action (List WaitingListEntry)
  unfolding gather_since
  gather cfg p =
      if p.scheduler_disabled
      then reply []
      else do last ← get_last_success p.slug last_success_key; gather_since cfg p last

  on_entries-halves :
      (cfg : Settings) (p : Project) (r : Result (List WaitingListEntry)) (w : World)
      → on_entries cfg p r w ≡ (gather_entries cfg p r >>= run_batch cfg p) w
  unfolding on_entries gather_entries ◌>>=◌ reply run_batch
  on_entries-halves cfg p (err _) w = refl
  on_entries-halves cfg p (ok es) w = refl

  unless_recent-halves :
      (cfg : Settings) (p : Project) (recent : Bool) (w : World)
      → unless_recent cfg p recent w ≡ (gather_unless cfg p recent >>= run_batch cfg p) w
  unfolding unless_recent gather_unless ◌>>=◌ reply run_batch
  unless_recent-halves cfg p true w = refl
  unless_recent-halves cfg p false w =
      let read = get_with_offset_limit p.slug none (some (batch_size cfg p)) w in
      unfold ◌>>=◌ in on_entries-halves cfg p read.0 read.1

  on_last_success-halves :
      (cfg : Settings) (p : Project) (r : Result Time) (w : World)
      → on_last_success cfg p r w ≡ (gather_since cfg p r >>= run_batch cfg p) w
  unfolding on_last_success gather_since ◌>>=◌ reply run_batch
  on_last_success-halves cfg p (err _) w = refl
  on_last_success-halves cfg p (ok last) w =
      let recent = is_recent (window_interval cfg p) last w in
      unfold ◌>>=◌ in unless_recent-halves cfg p recent.0 recent.1

  enabled-halves :
      (cfg : Settings) (p : Project) (disabled : Bool) (w : World)
      → (if disabled
            then reply tt
            else (get_last_success p.slug last_success_key >>= on_last_success cfg p))
          w
        ≡ ((if disabled
                then reply []
                else (get_last_success p.slug last_success_key >>= gather_since cfg p))
              >>= run_batch cfg p)
            w
  unfolding ◌>>=◌ reply run_batch
  enabled-halves cfg p true w = refl
  enabled-halves cfg p false w =
      let last = get_last_success p.slug last_success_key w in
      unfold ◌>>=◌ in on_last_success-halves cfg p last.0 last.1

  -- `processProject` is the one half after the other.
  pub process_project-halves :
      (cfg : Settings) (p : Project) (w : World)
      → process_project cfg p w ≡ (gather cfg p >>= run_batch cfg p) w
  unfolding process_project gather
  process_project-halves cfg p w = enabled-halves cfg p p.scheduler_disabled w

module _ ⦃repo : Repository⦄ ⦃c : Contract repo⦄ where
  open repo use {get_with_offset_limit, get_last_success}

  -- What is gathered was read from the tables as they were, and they are so still.
  abbrev pub Gathered : Db → String → List WaitingListEntry × World → Type 0
  Gathered before slug (es, w) =
      (w.db ≡ before)
      × ((e : WaitingListEntry) → In e es → Read c.weighted (rows_of slug before.waiting_list) e)

  module _ (cfg : Settings) (p : Project) (before : Db) where
    gather_entries-Gathered :
        (r : Result (List WaitingListEntry)) (w : World)
        → w.db ≡ before
        → AllRead c.weighted (rows_of p.slug before.waiting_list) r
        → Gathered before p.slug (gather_entries cfg p r w)
    unfolding gather_entries reply
    gather_entries-Gathered (err _) w same read = (same, λ e m. absurd (not-In-nil m))
    gather_entries-Gathered (ok es) w same read = (
      (due-Keeps {P = λ db. db ≡ before} (window_interval cfg p) es).at w same,
      λ e m. read e (due-In (window_interval cfg p) es w e m),
    )

    gather_unless-Gathered :
        (recent : Bool) (w : World)
        → w.db ≡ before
        → Gathered before p.slug (gather_unless cfg p recent w)
    unfolding gather_unless ◌>>=◌ reply
    gather_unless-Gathered true w same = (same, λ e m. absurd (not-In-nil m))
    gather_unless-Gathered false w same =
        let limit = some (batch_size cfg p) in
        let read = get_with_offset_limit p.slug none limit w in
        gather_entries-Gathered read.0 read.1
          ((get_with_offset_limit-Keeps {P = λ db. db ≡ before} p.slug none limit).at w same)
          (subst (λ d. AllRead c.weighted (rows_of p.slug d.waiting_list) read.0) same
            (c.get_with_offset_limit_read p.slug none limit w))

    gather_since-Gathered :
        (r : Result Time) (w : World)
        → w.db ≡ before
        → Gathered before p.slug (gather_since cfg p r w)
    unfolding gather_since ◌>>=◌ reply
    gather_since-Gathered (err _) w same = (same, λ e m. absurd (not-In-nil m))
    gather_since-Gathered (ok last) w same =
        let recent = is_recent (window_interval cfg p) last w in
        gather_unless-Gathered recent.0 recent.1
          ((is_recent-Keeps {P = λ db. db ≡ before} (window_interval cfg p) last).at w same)

    pub gather-Gathered : (w : World) → w.db ≡ before → Gathered before p.slug (gather cfg p w)
    unfolding gather ◌>>=◌ reply
    gather-Gathered w same =
        let last = get_last_success p.slug last_success_key w in
        if-both (Gathered before p.slug) p.scheduler_disabled _ _ w
          (same, λ e m. absurd (not-In-nil m))
          (gather_since-Gathered last.0 last.1
            ((get_last_success-Keeps {P = λ db. db ≡ before} p.slug last_success_key).at w same))
