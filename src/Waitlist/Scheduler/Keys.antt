-- ===== src/Waitlist/Scheduler/Keys.antt =====
-- What a batch may rely on when its transaction begins, and that its identifiers are keys.
use waitinglist.Prelude.{
  ◌≡◌, refl, sym, ap, subst, ◌∙◌, Option, some, List, [], ◌∷◌, In, here, there,
}
use waitinglist.Model.{Time, UserEntity, WaitingListEntry}
use waitinglist.Store.{Db, WaitingRow}
use waitinglist.Repository.Read.{Read}
use waitinglist.Repository.Keys.{KeyReader, Valid, read_all}
use waitinglist.Waitlist.Scheduler.{user_ids, entry_ids}

-- An entry that was read: its user is known, and only its own row of the list is of that user, if there
-- is one.
pub record Claims (key : KeyReader) (db : Db) (e : WaitingListEntry) : Type 0 where
  pub user : UserEntity
  pub known : In user db.user_entity
  pub same : user.id ≡ e.user_id
  pub own : (r : WaitingRow) → In r db.waiting_list → r.user_id ≡ e.user_id → r.id ≡ e.id
  pub is_key : key e.id ≡ some e.id

-- So it is of what is read from the tables as they are.
pub Read-Claims :
    {weighted : WaitingRow → Option Time} (key : KeyReader) (db : Db) (valid : Valid key db)
    (e : WaitingListEntry)
    → Read weighted db.waiting_list e
    → Claims key db e
Read-Claims key db valid e read =
    let u = valid.0.waiting_known read.row read.known in
    record {
      user = u.0;
      known = u.1;
      same = u.2 ∙ read.user_id;
      own = λ r m of_user.
          ap (λ (x : WaitingRow). x.id)
            (valid.0.waiting_key r read.row m read.known (of_user ∙ sym read.user_id))
          ∙ read.id;
      is_key = subst (λ k. key k ≡ some k) read.id (valid.1.entry read.row read.known);
    }

module _ (key : KeyReader) (db : Db) (valid : Valid key db) where
  abbrev AllClaims : List WaitingListEntry → Type 0
  AllClaims es = (e : WaitingListEntry) → In e es → Claims key db e

  user_key : (e : WaitingListEntry) → Claims key db e → key e.user_id ≡ some e.user_id
  user_key e c = subst (λ k. key k ≡ some k) c.same (valid.1.user c.user c.known)

  pub user_ids-keys :
      (es : List WaitingListEntry) → AllClaims es → read_all key (user_ids es) ≡ some (user_ids es)
  unfolding user_ids
  user_ids-keys [] h = refl
  user_ids-keys (e ∷ es) h =
      rw (user_key e (h e (here refl)), user_ids-keys es (λ x m. h x (there m))) refl

  pub entry_ids-keys :
      (es : List WaitingListEntry)
      → AllClaims es
      → read_all key (entry_ids es) ≡ some (entry_ids es)
  unfolding entry_ids
  entry_ids-keys [] h = refl
  entry_ids-keys (e ∷ es) h =
      rw ((h e (here refl)).is_key, entry_ids-keys es (λ x m. h x (there m))) refl
