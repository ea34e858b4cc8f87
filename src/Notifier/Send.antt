-- ===== src/Notifier/Send.antt =====
-- internal/notifier/notifier.go and the end of digest.go: sending.
pub mod Reads
pub mod Delivery
use waitinglist.Prelude.{String, ◌||◌, List, [], ◌∷◌, ◌++◌, if◌then◌else◌}
use waitinglist.Prelude.Text.{str_eq}
use waitinglist.Model.{Result, ok, err, UserEntity, Project}
use waitinglist.Notifier.Message.{Message, access_granted, digest, DigestData}
use waitinglist.Store.{World}
use waitinglist.Store.Monad.{M, driver}

abbrev pub post : Message → World → World
post m w = record w { outbox = w.outbox ++ m ∷ [] }

posted : Message → Result (Unit {0}) × World → Result (Unit {0}) × World
unfolding driver
posted m (ok _, w) = driver (post m w)
posted m (err e, w) = (err e, w)

-- `send` of one mail: the server takes it, or the dialogue fails before; once the server has taken it,
-- QUIT may fail still, and that is the answer.
pub send : Message → M (Unit {0})
unfolding posted driver
send m w = posted m (driver w)

-- `NotifyAccessGranted`: a failure to send is logged, and nobody is told.
unfoldable pub notify_access_granted : UserEntity → Project → World → World
unfolding send
notify_access_granted user project w =
    if str_eq project.email.from "" || str_eq project.email.subject ""
    then w
    else (send (access_granted user project) w).1

abbrev pub first_error : Result (Unit {0}) → Result (Unit {0}) → Result (Unit {0})
first_error (ok _) r = r
first_error (err e) r = err e

-- The loop of `SendDigest`: every recipient is tried, and the first error is returned.
pub send_each : String → String → DigestData → List String → M (Unit {0})
unfolding send
send_each from subject content [] w = (ok tt, w)
send_each from subject content (rcpt ∷ rest) w =
    let (r, w') = send (digest rcpt from subject content) w in
    let (r', w'') = send_each from subject content rest w' in (first_error r r', w'')

-- `SendDigest`
unfoldable pub send_digest : List String → String → String → DigestData → M (Unit {0})
unfolding send_each
send_digest recipients from subject content = send_each from subject content recipients
