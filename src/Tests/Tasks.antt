-- ===== src/Tests/Tasks.antt =====
-- The theorems on the scheduled tasks at concrete inputs.
use waitinglist.Prelude.{
  ◌+◌, ◌*◌, ◌≡◌, refl, Bool, true, false, none, some, [], ◌∷◌, ◌++◌, String, arith,
}
use waitinglist.Prelude.Int.{pos}
use waitinglist.Prelude.Text.{str_eq}
use waitinglist.Model.Clock.{hour, day}
use waitinglist.Store.{World}
use waitinglist.Notifier.Message.{digest, DigestData, full_state, blank}
use waitinglist.Notifier.Send.{send_digest}
use waitinglist.Notifier.Send.Reads.{send_digest-Keeps}
use waitinglist.Notifier.Send.Delivery.{send_digest-delivered, is_error}
use waitinglist.Sqlite.Waiting.{get_with_offset_limit}
use waitinglist.Sqlite.Waiting.Pages.{IsPage, get_with_offset_limit-IsPage}
use waitinglist.Waitlist.Scheduler.{process_project}
use waitinglist.Waitlist.Scheduler.Outcome.{RoundOutcome, process_project-outcome}
use waitinglist.Waitlist.Scheduler.Window.{process_project-rests}
use waitinglist.Waitlist.Digest.{process_digest_project, start_digest, nil, holds, typed_nil}
use waitinglist.Waitlist.Digest.Outcome.{DigestOutcome, process_digest_project-outcome}
use waitinglist.Waitlist.Digest.Jobs.{IsScheduled, start_digest-registers}
use waitinglist.Prelude.Selected.{IsSelection}
use waitinglist.Repository.OverSqlite.{sqlite, sqlite_contract}
use waitinglist.Tests.Data.{acme, busy, settings, ripe, signed_up-Valid, stamp}

process_project-outcome_example :
    RoundOutcome ripe.db "acme" (process_project settings acme ripe).1.db
process_project-outcome_example = process_project-outcome settings acme ripe signed_up-Valid

-- The clock stands an hour behind the last success.
abbrev resting : World
resting = record busy { clock = λ _. 1000 * day + hour }

process_project-rests_example : (process_project settings acme resting).1.db ≡ resting.db
process_project-rests_example =
    process_project-rests settings acme resting stamp (30 * hour) refl (omega arith) refl
      (λ e. omega (arith, e)) (λ k. omega arith)

get_with_offset_limit-IsPage_example :
    IsPage busy.db "acme" none
      (some (pos 1))
      (get_with_offset_limit "acme" none (some (pos 1)) busy).0
get_with_offset_limit-IsPage_example = get_with_offset_limit-IsPage "acme" none (some (pos 1)) busy

abbrev content : DigestData
content = record {
  project_name = "Acme";
  period_start = full_state;
  period_end = blank;
  new_enlisted = [];
  new_granted = [];
  enlisted_count = 0;
  granted_count = 0;
}

-- The server refuses the first of two recipients, and ends the session of the second with an error.
abbrev refusing : World
refusing = record busy { faults = true ∷ false ∷ true ∷ [] }

send_digest-delivered_example :
    let a =
      send_digest ("a@acme.test" ∷ "b@acme.test" ∷ []) "hi@acme.test" "Digest" content refusing in
    (a.1.outbox ≡ refusing.outbox ++ digest "b@acme.test" "hi@acme.test" "Digest" content ∷ [])
    × (is_error a.0 ≡ true)
send_digest-delivered_example =
    send_digest-delivered ("a@acme.test" ∷ "b@acme.test" ∷ []) "hi@acme.test" "Digest" content
      refusing

abbrev daily : String → Bool
daily s = str_eq s "@daily"

start_digest-registers_example :
    (start_digest daily nil (acme ∷ []) ≡ [])
    × IsSelection
        (IsScheduled daily)
        (acme ∷ [])
        (start_digest daily (holds send_digest) (acme ∷ []))
    × IsSelection (IsScheduled daily) (acme ∷ []) (start_digest daily typed_nil (acme ∷ []))
start_digest-registers_example = start_digest-registers daily send_digest (acme ∷ [])

-- The clock stands an hour behind the grant of the user of `busy`.
abbrev granting : World
granting = record busy { clock = λ n. 950 * day + n * hour + hour }

process_digest_project-outcome_example :
    DigestOutcome send_digest acme granting.db
      (process_digest_project send_digest acme granting).1.db
process_digest_project-outcome_example =
    process_digest_project-outcome send_digest acme granting send_digest-Keeps
