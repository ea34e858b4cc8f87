-- ===== src/Notifier/Compose.antt =====
-- What a digest is made of, as internal/waitlist/digest.go and internal/handler/admin.go both
-- compose it from the rows.
use waitinglist.Prelude.{String, Option, none, some, if◌then◌else◌}
use waitinglist.Prelude.Text.{str_eq}
use waitinglist.Model.{Time, UserEntity, WaitingListAdminRow, Project}
use waitinglist.Notifier.Message.{
  DigestTime, blank, format_digest_time, EnlistedEntry, GrantedEntry,
}

abbrev pub enlisted_entry : WaitingListAdminRow → EnlistedEntry
enlisted_entry e = record {
  firstname = e.firstname;
  lastname = e.lastname;
  email = e.email;
  joined_at = format_digest_time e.created_at;
}

abbrev time_or_blank : Option Time → DigestTime
time_or_blank none = blank
time_or_blank (some t) = format_digest_time t

abbrev text_or_empty : Option String → String
text_or_empty none = ""
text_or_empty (some s) = s

abbrev pub granted_entry : UserEntity → GrantedEntry
granted_entry u = record {
  firstname = u.firstname;
  lastname = u.lastname;
  email = u.email;
  granted_at = time_or_blank u.access_granted_at;
  granted_by = text_or_empty u.access_granted_by;
}

abbrev pub if_empty : String → String → String
if_empty s d = if str_eq s "" then d else s

-- `from`: the digest's own sender, or else the project's
abbrev pub digest_from : Project → String
digest_from p = if_empty p.digest.from p.email.from
