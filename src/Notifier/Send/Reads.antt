-- ===== src/Notifier/Send/Reads.antt =====
-- Sending mail changes no table.
use waitinglist.Prelude.{
  ◌≡◌, refl, sym, ◌∙◌, subst, String, List, [], ◌∷◌, Bool, true, false, if◌then◌else◌, ◌||◌,
}
use waitinglist.Prelude.Text.{str_eq}
use waitinglist.Model.{Result, ok, err, UserEntity, Project}
use waitinglist.Store.Monad.{driver}
use waitinglist.Store.Keeps.{Keeps, driver-db}
use waitinglist.Store.{World, Db}
use waitinglist.Notifier.Message.{Message, access_granted, digest, DigestData}
use waitinglist.Notifier.Send.{post, posted, send, send_each, send_digest, notify_access_granted}

posted-db : (m : Message) (r : Result (Unit {0}) × World) → (posted m r).1.db ≡ r.1.db
unfolding posted
posted-db m (ok _, w) = driver-db (post m w)
posted-db m (err _, w) = refl

send-db : (m : Message) (w : World) → (send m w).1.db ≡ w.db
unfolding send
send-db m w = posted-db m (driver w) ∙ driver-db w

either-db : (b : Bool) (w v : World) → v.db ≡ w.db → (if b then w else v).db ≡ w.db
either-db true w v h = refl
either-db false w v h = h

pub notify_access_granted-db :
    (u : UserEntity) (p : Project) (w : World) → (notify_access_granted u p w).db ≡ w.db
unfolding notify_access_granted
notify_access_granted-db u p w =
    either-db (str_eq p.email.from "" || str_eq p.email.subject "") w _
      (send-db (access_granted u p) w)

module _ {P : Db → Type 0} where
  send_each-Keeps :
      (from subject : String) (content : DigestData) (rs : List String)
      → Keeps P (send_each from subject content rs)
  unfolding send_each
  send_each-Keeps from subject content [] = record { at = λ w h. h }
  send_each-Keeps from subject content (r ∷ rs) = record {
    at = λ w h.
        (send_each-Keeps from subject content rs).at (send (digest r from subject content) w).1
          (subst P (sym (send-db (digest r from subject content) w)) h);
  }

  pub send_digest-Keeps :
      (rs : List String) (from subject : String) (content : DigestData)
      → Keeps P (send_digest rs from subject content)
  unfolding send_digest
  send_digest-Keeps rs from subject content = send_each-Keeps from subject content rs
