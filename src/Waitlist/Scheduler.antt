-- ===== src/Waitlist/Scheduler.antt =====
-- internal/waitlist/waitlist.go: the scheduler that lets waiting users in, by batches.
pub mod Keys
pub mod Batch
pub mod Transaction
pub mod Window
pub mod Steps
pub mod Gathering
pub mod Outcome
pub mod Age
use waitinglist.Prelude.{
  ℕ, zero, suc, ◌+◌, String, Bool, true, false, Option, none, some, List, [], ◌∷◌, if◌then◌else◌,
}
use waitinglist.Prelude.Int.{ℤ, ltb_ℤ}
use waitinglist.Model.{Time, Duration, Result, ok, err, Project, UserEntity, WaitingListEntry}
use waitinglist.Model.Clock.{is_zero, since}
use waitinglist.Notifier.Send.{notify_access_granted}
use waitinglist.Store.{World}
use waitinglist.Store.Action.{
  Action, reply, ◌>>=◌, ◌>>◌, Ending, committed, rolled_back, begin_tx, commit, in_tx,
}
use waitinglist.Repository.{Repository}

-- The part of `config.Config` that the scheduler reads, and whether there is an email notifier.
pub record Settings : Type 0 where
  pub entry_batch_size : ℤ
  pub entry_window_interval : Duration
  pub disabled : Bool
  pub has_notifier : Bool

abbrev pub last_success_key : String
last_success_key = "waitlist_last_success"

abbrev or_setting : ℤ → Option ℤ → ℤ
or_setting d none = d
or_setting d (some n) = n

abbrev pub batch_size : Settings → Project → ℤ
batch_size cfg p = or_setting cfg.entry_batch_size p.entry_batch_size

abbrev pub window_interval : Settings → Project → Duration
window_interval cfg p = or_setting cfg.entry_window_interval p.entry_window_interval

-- `time.Since(t) < window`, which reads the clock
abbrev pub is_within : Duration → Time → Action Bool
is_within window t w = (ltb_ℤ (since (w.clock w.ticks) t) window, record w { ticks = w.ticks + 1 })

take_if : WaitingListEntry → Bool → List WaitingListEntry → List WaitingListEntry
take_if e young rest = if young then rest else e ∷ rest

-- The loop that leaves out the entries younger than the window.
unfoldable pub due : Duration → List WaitingListEntry → Action (List WaitingListEntry)
unfolding take_if
due window [] = reply []
due window (e ∷ es) = do
  young ← is_within window e.weighted_created_at
  rest ← due window es
  reply (take_if e young rest)

-- `usersToAllow` and `waitingListIDs`
pub user_ids : List WaitingListEntry → List String
user_ids [] = []
user_ids (e ∷ es) = e.user_id ∷ user_ids es

pub entry_ids : List WaitingListEntry → List String
entry_ids [] = []
entry_ids (e ∷ es) = e.id ∷ entry_ids es

on_committed : Result (Unit {0}) → Ending Bool
on_committed (err _) = rolled_back false
on_committed (ok _) = committed true

on_updated : Result (Unit {0}) → Action (Ending Bool)
unfolding on_committed
on_updated (err _) = reply (rolled_back false)
on_updated (ok _) = do c ← commit; reply (on_committed c)

pub notify_all : Project → List UserEntity → World → World
notify_all p [] w = w
notify_all p (u ∷ us) w = notify_all p us (notify_access_granted u p w)

on_users : Project → Result (List UserEntity) → Action (Unit {0})
unfolding notify_all
on_users p (err _) w = (tt, w)
on_users p (ok us) w = (tt, notify_all p us w)

pub is_recent : Duration → Time → Action Bool
is_recent window last = if is_zero last then reply false else is_within window last

module _ ⦃repo : Repository⦄ where
  open repo use {
    grant_access_tx, get_by_ids, get_with_offset_limit, delete_by_ids_tx, get_last_success,
    update_last_success,
  }

  on_deleted : Project → Result (Unit {0}) → Action (Ending Bool)
  unfolding on_updated
  on_deleted p (err _) = reply (rolled_back false)
  on_deleted p (ok _) = do u ← update_last_success p.slug last_success_key; on_updated u

  on_granted : Project → List WaitingListEntry → Result (Unit {0}) → Action (Ending Bool)
  unfolding on_deleted entry_ids
  on_granted p es (err _) = reply (rolled_back false)
  on_granted p es (ok _) = do d ← delete_by_ids_tx (entry_ids es); on_deleted p d

  -- The transaction, and whether it was committed.
  pub let_in : Project → List WaitingListEntry → Action (Ending Bool)
  unfolding on_granted user_ids
  let_in p es = do g ← grant_access_tx (user_ids es) "scheduler"; on_granted p es g

  pub after_commit : Settings → Project → List WaitingListEntry → Bool → Action (Unit {0})
  unfolding on_users user_ids
  after_commit cfg p es false = reply tt
  after_commit cfg p es true =
      if cfg.has_notifier then (do us ← get_by_ids (user_ids es); on_users p us) else reply tt

  -- From the entries that are due to the end of `processProject`.
  pub run_batch : Settings → Project → List WaitingListEntry → Action (Unit {0})
  unfolding let_in after_commit
  run_batch cfg p [] = reply tt
  run_batch cfg p (e ∷ es) = do
    tx ← begin_tx
    done ← in_tx tx false (let_in p (e ∷ es))
    after_commit cfg p (e ∷ es) done

  on_entries : Settings → Project → Result (List WaitingListEntry) → Action (Unit {0})
  unfolding due run_batch
  on_entries cfg p (err _) = reply tt
  on_entries cfg p (ok es) = do d ← due (window_interval cfg p) es; run_batch cfg p d

  -- the batch, unless the last success is within the window
  unless_recent : Settings → Project → Bool → Action (Unit {0})
  unfolding on_entries
  unless_recent cfg p true = reply tt
  unless_recent cfg p false = do
    es ← get_with_offset_limit p.slug none (some (batch_size cfg p))
    on_entries cfg p es

  on_last_success : Settings → Project → Result Time → Action (Unit {0})
  unfolding unless_recent is_recent
  on_last_success cfg p (err _) = reply tt
  on_last_success cfg p (ok last) = do
    recent ← is_recent (window_interval cfg p) last
    unless_recent cfg p recent

  -- `processProject`
  pub process_project : Settings → Project → Action (Unit {0})
  unfolding on_last_success
  process_project cfg p =
      if p.scheduler_disabled
      then reply tt
      else do last ← get_last_success p.slug last_success_key; on_last_success cfg p last

  -- `checkAllProjects`
  pub check_all_projects : Settings → List Project → Action (Unit {0})
  check_all_projects cfg [] = reply tt
  check_all_projects cfg (p ∷ ps) = do process_project cfg p; check_all_projects cfg ps

  -- The loop of `Start`: it comes round at once, and then with each tick.
  pub check_rounds : Settings → List Project → ℕ → Action (Unit {0})
  check_rounds cfg ps zero = reply tt
  check_rounds cfg ps (suc rounds) = do check_all_projects cfg ps; check_rounds cfg ps rounds

  -- `Start`, for the number of times that its loop comes round before the context ends.
  pub start : Settings → List Project → ℕ → Action (Unit {0})
  unfolding check_rounds
  start cfg ps rounds = if cfg.disabled then reply tt else check_rounds cfg ps rounds
