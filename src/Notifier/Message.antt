-- ===== src/Notifier/Message.antt =====
-- internal/notifier/digest.go: what a digest holds; and the mails by what they are made from. The
-- templates, which turn these into HTML, are not modelled.
use waitinglist.Prelude.{ℕ, ◌*◌, ◌/◌, String, List}
use waitinglist.Model.{Time, UserEntity, Project}
use waitinglist.Model.Clock.{second}

-- A text of a digest: empty, "Full state", or a formatted time by its minute.
pub data DigestTime : Type 0 where
  blank full_state : DigestTime
  minute : ℕ → DigestTime

-- `FormatDigestTime`: the layout "2006-01-02 15:04 UTC" shows the minute.
abbrev pub format_digest_time : Time → DigestTime
format_digest_time t = minute (t / (60 * second))

pub record EnlistedEntry : Type 0 where
  pub firstname : String
  pub lastname : String
  pub email : String
  pub joined_at : DigestTime

pub record GrantedEntry : Type 0 where
  pub firstname : String
  pub lastname : String
  pub email : String
  pub granted_at : DigestTime
  pub granted_by : String

pub record DigestData : Type 0 where
  pub project_name : String
  pub period_start : DigestTime
  pub period_end : DigestTime
  pub new_enlisted : List EnlistedEntry
  pub new_granted : List GrantedEntry
  pub enlisted_count : ℕ
  pub granted_count : ℕ

pub data Message : Type 0 where
  access_granted : UserEntity → Project → Message
  digest : String → String → String → DigestData → Message
