-- ===== src/Waitlist/Digest.antt =====
-- internal/waitlist/digest.go: the digests that are sent by schedule.
pub mod Jobs
pub mod Outcome
use Prim.Native.String.{◌++◌ as append}
use waitinglist.Prelude.{
  ◌+◌, ◌-◌, String, Bool, true, false, not, ◌&&◌, ◌||◌, List, [], ◌∷◌, map, if◌then◌else◌, length,
  is_empty,
}
use waitinglist.Prelude.Text.{str_eq}
use waitinglist.Model.{Time, Result, ok, err, Project, UserEntity, WaitingListAdminRow}
use waitinglist.Model.Clock.{day, is_zero}
use waitinglist.Notifier.Message.{format_digest_time, DigestData}
use waitinglist.Notifier.Compose.{enlisted_entry, granted_entry, if_empty, digest_from}
use waitinglist.Store.Monad.{M}
use waitinglist.Store.Action.{Action, reply, ◌>>=◌}
use waitinglist.Repository.{Repository}

abbrev pub digest_key : String
digest_key = "digest_last_success"

-- `DigestSender`: the method that the interface holds.
abbrev pub Sender : Type 0
Sender = List String → String → String → DigestData → M (Unit {0})

abbrev pub clock_now : Action Time
clock_now w = (w.clock w.ticks, record w { ticks = w.ticks + 1 })

-- the start of the period: the last success, or a day ago
unfoldable pub period_start : Time → Action Time
period_start last = if is_zero last then (do now ← clock_now; reply (now - day)) else reply last

pub activity_digest :
    Project → Time → Time → List WaitingListAdminRow → List UserEntity → DigestData
activity_digest p since now enlisted granted = record {
  project_name = p.name;
  period_start = format_digest_time since;
  period_end = format_digest_time now;
  new_enlisted = map enlisted_entry enlisted;
  new_granted = map granted_entry granted;
  enlisted_count = length (map enlisted_entry enlisted);
  granted_count = length (map granted_entry granted);
}

-- A Go interface that holds a pointer: nil itself, or of the pointer type with the pointer nil, or
-- with a value.
pub data Interface (A : Type 0) : Type 0 where
  nil : Interface A
  typed_nil : Interface A
  holds : A → Interface A

-- `sender == nil`
abbrev pub is_nil : {A : Type 0} → Interface A → Bool
is_nil nil = true
is_nil typed_nil = false
is_nil (holds _) = false

abbrev has_schedule : Project → Bool
has_schedule p = not (is_empty p.digest.recipients || str_eq p.digest.schedule "")

-- `StartDigest`: the projects whose job is registered. `parses` says of a text that the cron library
-- accepts it as a schedule.
unfoldable pub start_digest : (String → Bool) → Interface Sender → List Project → List Project
start_digest parses nil ps = []
start_digest parses _ [] = []
start_digest parses sender (p ∷ ps) =
    if has_schedule p && parses p.digest.schedule
    then p ∷ start_digest parses sender ps
    else start_digest parses sender ps

module _ ⦃repo : Repository⦄ where
  open repo use {get_granted_since, get_enlisted_since, get_last_success, update_last_success}

  record_success : Project → Result (Unit {0}) → Action (Unit {0})
  record_success p (err _) = reply tt
  record_success p (ok _) = do u ← update_last_success p.slug digest_key; reply tt

  module _ (send : Sender) where
    mail_activity :
        Project → Time → Time → List WaitingListAdminRow → List UserEntity → Action (Unit {0})
    unfolding record_success activity_digest
    mail_activity p since now enlisted granted =
        if is_empty enlisted && is_empty granted then reply tt else do
          sent ←
              send p.digest.recipients (digest_from p)
                (if_empty p.digest.subject (append p.name " — Activity Digest"))
                (activity_digest p since now enlisted granted)
          record_success p sent

    on_granted :
        Project
        → Time
        → Time
        → List WaitingListAdminRow
        → Result (List UserEntity)
        → Action (Unit {0})
    unfolding mail_activity
    on_granted p since now enlisted (err _) = reply tt
    on_granted p since now enlisted (ok granted) = mail_activity p since now enlisted granted

    on_enlisted : Project → Time → Time → Result (List WaitingListAdminRow) → Action (Unit {0})
    unfolding on_granted
    on_enlisted p since now (err _) = reply tt
    on_enlisted p since now (ok enlisted) = do
      granted ← get_granted_since p.slug since
      on_granted p since now enlisted granted

    on_last_success : Project → Result Time → Action (Unit {0})
    unfolding on_enlisted period_start
    on_last_success p (err _) = reply tt
    on_last_success p (ok last) = do
      since ← period_start last
      now ← clock_now
      enlisted ← get_enlisted_since p.slug since
      on_enlisted p since now enlisted

    -- `processDigestProject`
    pub process_digest_project : Project → Action (Unit {0})
    unfolding on_last_success
    process_digest_project p = do last ← get_last_success p.slug digest_key; on_last_success p last
