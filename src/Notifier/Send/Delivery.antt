-- ===== src/Notifier/Send/Delivery.antt =====
-- `SendDigest`: who is sent the digest, and when it reports an error.
use waitinglist.Prelude.{
  ◌≡◌, refl, ap, ◌∙◌, String, Bool, true, false, ◌||◌, List, [], ◌∷◌, ◌++◌, map,
}
use waitinglist.Model.{Result, ok, err}
use waitinglist.Notifier.Message.{Message, digest, DigestData}
use waitinglist.Notifier.Send.{posted, send, send_each, send_digest}
use waitinglist.Store.{World}
use waitinglist.Store.Monad.{driver, answer}

-- The recipients whose mail the server takes, by its coming answers: one to the mail, and one to QUIT where
-- it has taken the mail.
abbrev pub delivered : List Bool → List String → List String
delivered fs [] = []
delivered [] (r ∷ rs) = r ∷ delivered [] rs
delivered (true ∷ fs) (r ∷ rs) = delivered fs rs
delivered (false ∷ []) (r ∷ rs) = r ∷ delivered [] rs
delivered (false ∷ quit ∷ fs) (r ∷ rs) = r ∷ delivered fs rs

-- A mail is refused, or the session of one that was taken ends with an error.
abbrev pub some_failed : List Bool → List String → Bool
some_failed fs [] = false
some_failed [] (r ∷ rs) = false
some_failed (true ∷ fs) (r ∷ rs) = true
some_failed (false ∷ []) (r ∷ rs) = false
some_failed (false ∷ quit ∷ fs) (r ∷ rs) = quit || some_failed fs rs

abbrev pub is_error : Result (Unit {0}) → Bool
is_error (ok _) = false
is_error (err _) = true

none_failed : (rs : List String) → some_failed [] rs ≡ false
none_failed [] = refl
none_failed (r ∷ rs) = refl

module _ (from subject : String) (content : DigestData) where
  abbrev mail : String → Message
  mail rcpt = digest rcpt from subject content

  step :
      (m : Message) (ms sent all : List Message)
      → all ≡ (ms ++ m ∷ []) ++ sent
      → all ≡ ms ++ m ∷ sent
  step m [] sent all h = h
  step m (x ∷ ms) sent all h = h ∙ ap (λ l. x ∷ l) (step m ms sent ((ms ++ m ∷ []) ++ sent) refl)

  nothing_more : (ms : List Message) → ms ≡ ms ++ []
  nothing_more [] = refl
  nothing_more (x ∷ ms) = ap (λ l. x ∷ l) (nothing_more ms)

  each-delivered :
      (rs : List String) (fs : List Bool) (w : World)
      → w.faults ≡ fs
      → ((send_each from subject content rs w).1.outbox ≡ w.outbox ++ map mail (delivered fs rs))
        × (is_error (send_each from subject content rs w).0 ≡ some_failed fs rs)
  unfolding send_each send driver answer posted
  each-delivered [] fs w e = (nothing_more w.outbox, refl)
  each-delivered (r ∷ rs) [] w e =
      let later =
        each-delivered rs [] (record w { faults = []; outbox = w.outbox ++ mail r ∷ [] }) refl in
      rw e (step (mail r) w.outbox _ _ later.0, later.1 ∙ none_failed rs)
  each-delivered (r ∷ rs) (true ∷ fs) w e =
      let later = each-delivered rs fs (record w { faults = fs }) refl in rw e (later.0, refl)
  each-delivered (r ∷ rs) (false ∷ []) w e =
      let later =
        each-delivered rs [] (record w { faults = []; outbox = w.outbox ++ mail r ∷ [] }) refl in
      rw e (step (mail r) w.outbox _ _ later.0, later.1 ∙ none_failed rs)
  each-delivered (r ∷ rs) (false ∷ true ∷ fs) w e =
      let later =
        each-delivered rs fs (record w { faults = fs; outbox = w.outbox ++ mail r ∷ [] }) refl in
      rw e (step (mail r) w.outbox _ _ later.0, refl)
  each-delivered (r ∷ rs) (false ∷ false ∷ fs) w e =
      let later =
        each-delivered rs fs (record w { faults = fs; outbox = w.outbox ++ mail r ∷ [] }) refl in
      rw e (step (mail r) w.outbox _ _ later.0, later.1)

-- `SendDigest` tries every recipient: behind what was in the outbox it puts, in order, one mail for
-- each recipient whose mail the server takes, and it reports an error exactly if the server refused one
-- or ended the session of one that it took with an error.
pub send_digest-delivered :
    (recipients : List String) (from subject : String) (content : DigestData) (w : World)
    → let a = send_digest recipients from subject content w in
      (a.1.outbox
        ≡ w.outbox
          ++ map (λ rcpt. digest rcpt from subject content) (delivered w.faults recipients))
      × (is_error a.0 ≡ some_failed w.faults recipients)
unfolding send_digest
send_digest-delivered recipients from subject content w =
    each-delivered from subject content recipients w.faults w refl
