-- ===== src/Postgres/Refusals.antt =====
-- internal/repository/postgres/waitinglist.go, `Add`: why it is refused.
use waitinglist.Prelude.{
  ◌≡◌, ◌≢◌, ◌⊎◌, refl, subst, sym, String, In, any, Bool-cases, inl, inr, any-In, any-false, some,
}
use waitinglist.Prelude.Text.{str_eq_sound}
use waitinglist.Model.{
  Time, Error, Result, ok, err, failed, already_on_waiting_list, waiting_list_foreign_key,
  WaitingListEntry, UserEntity,
}
use waitinglist.Model.Clock.{zero_time}
use waitinglist.Store.{Db, World, WaitingRow}
use waitinglist.Store.Monad.{◌>>=◌, driver, proceed, pure, new_uuid}
use waitinglist.Store.Keeps.{driver-db, driver-draw}
use waitinglist.Invariant.Removal.{driver-OnlyFails}
use waitinglist.Invariant.Methods.{ne_of_str_eq}
use waitinglist.Sqlite.Users.{has_id}
use waitinglist.Sqlite.Waiting.{has_entry_id, is_of_user, new_waiting_row}
use waitinglist.Postgres.Server.{Server, typed}
use waitinglist.Postgres.Rules.{at_typed}
use waitinglist.Postgres.Errors.{IsUnknown}
use waitinglist.Postgres.Waiting.{insert_waiting, add}

-- A row has that key, or is of that user.
abbrev pub HasEntry : String → Db → Type 0
HasEntry id db = (r : WaitingRow) × In r db.waiting_list × (r.id ≡ id)

abbrev pub Waits : String → Db → Type 0
Waits k db = (r : WaitingRow) × In r db.waiting_list × (r.user_id ≡ k)

abbrev pub IsUser : String → Db → Type 0
IsUser k db = (u : UserEntity) × In u db.user_entity × (u.id ≡ k)

-- What an INSERT of a row with these keys can answer of those tables.
abbrev pub Inserted : Db → String → String → Result (Unit {0}) → Type 0
Inserted db id k (ok _) = IsUser k db × ((r : WaitingRow) → In r db.waiting_list → r.user_id ≢ k)
Inserted db id k (err already_on_waiting_list) = HasEntry id db ⊎ Waits k db
Inserted db id k (err waiting_list_foreign_key) = IsUnknown k db
Inserted db id k (err e) = e ≡ failed

insertion-Inserted :
    (id slug k : String) (now : Time) (w : World)
    → Inserted w.db id k (insert_waiting (new_waiting_row id slug k now) w).0
unfolding insert_waiting
insertion-Inserted id slug k now w = elim (Bool-cases (any (has_entry_id id) w.waiting_list)) [
  | inl taken ↦
      let m = any-In (has_entry_id id) w.waiting_list taken in
      rw taken (inl (m.0, m.1, str_eq_sound m.0.id id m.2))
  | inr new ↦ elim (Bool-cases (any (is_of_user k) w.waiting_list)) [
    | inl waits ↦
        let m = any-In (is_of_user k) w.waiting_list waits in
        rw (new, waits) (inr (m.0, m.1, str_eq_sound m.0.user_id k m.2))
    | inr free ↦ elim (Bool-cases (any (has_id k) w.user_entity)) [
      | inl known ↦
          let m = any-In (has_id k) w.user_entity known in
          rw (new, free, known)
            (
              (m.0, m.1, str_eq_sound m.0.id k m.2),
              λ r i. ne_of_str_eq r.user_id k (any-false (is_of_user k) w.waiting_list free i),
            )
      | inr unknown ↦
          rw (new, free, unknown)
            (λ u i. ne_of_str_eq u.id k (any-false (has_id k) w.user_entity unknown i))
    ]
  ]
]

module _ (s : Server) where
  -- What `Add` can answer of those tables, with the key that it draws.
  abbrev pub Added : Db → String → String → Result WaitingListEntry → Type 0
  Added db user_id drawn (ok e) =
      (s.uuid user_id ≡ some e.user_id)
      × (s.uuid drawn ≡ some e.id)
      × IsUser e.user_id db
      × ((r : WaitingRow) → In r db.waiting_list → r.user_id ≢ e.user_id)
  Added db user_id drawn (err already_on_waiting_list) =
      (k i : String) × (s.uuid user_id ≡ some k)
      × (s.uuid drawn ≡ some i)
      × (HasEntry i db ⊎ Waits k db)
  Added db user_id drawn (err waiting_list_foreign_key) =
      (k : String) × (s.uuid user_id ≡ some k) × IsUnknown k db
  Added db user_id drawn (err e) = e ≡ failed

  answered-Added :
      (user_id drawn k i slug : String) (now : Time) (db : Db) (r : Result (Unit {0})) (w : World)
      → s.uuid user_id ≡ some k
      → s.uuid drawn ≡ some i
      → Inserted db i k r
      → Added db user_id drawn
          (proceed r
            (λ _. pure (record {
              id = i;
              project_slug = slug;
              user_id = k;
              created_at = now;
              weighted_created_at = zero_time;
            }))
            w).0
  unfolding pure
  answered-Added user_id drawn k i slug now db (ok _) w is_key is_id h = (is_key, is_id, h.0, h.1)
  answered-Added user_id drawn k i slug now db (err already_on_waiting_list) w is_key is_id h =
      (k, i, is_key, is_id, h)
  answered-Added user_id drawn k i slug now db (err waiting_list_foreign_key) w is_key is_id h =
      (k, is_key, h)
  answered-Added user_id drawn k i slug now db (err e) w is_key is_id h = h

  failure-Added :
      (db : Db) (user_id drawn : String) (e : Error) → e ≡ failed → Added db user_id drawn (err e)
  failure-Added db user_id drawn e h = subst (λ x. Added db user_id drawn (err x)) (sym h) refl

  drawn-Added :
      (slug user_id k : String) (now : Time) (w : World)
      → s.uuid user_id ≡ some k
      → Added w.db user_id
          (w.uuids w.drawn)
          ((new_uuid >>= λ drawn. typed (s.uuid drawn) >>= λ id.
              insert_waiting (new_waiting_row id slug k now) >>= λ _. pure (record {
                id = id;
                project_slug = slug;
                user_id = k;
                created_at = now;
                weighted_created_at = zero_time;
              }))
            w).0
  unfolding ◌>>=◌
  drawn-Added slug user_id k now w is_key =
      at_typed (λ q. Added w.db user_id (w.uuids w.drawn) q.0) (s.uuid (w.uuids w.drawn)) _
        (new_uuid w).1 refl
        λ id is_id.
          let r = insert_waiting (new_waiting_row id slug k now) (new_uuid w).1 in
          answered-Added user_id (w.uuids w.drawn) k id slug now w.db r.0 r.1 is_key is_id
            (insertion-Inserted id slug k now (new_uuid w).1)

  asked-Added :
      (slug user_id : String) (now : Time) (r : Result (Unit {0})) (w : World)
      → ((e : Error) → r ≡ err e → e ≡ failed)
      → Added w.db user_id
          (w.uuids w.drawn)
          (proceed r
            (λ _. typed (s.uuid user_id) >>= λ k. new_uuid >>= λ drawn.
              typed (s.uuid drawn) >>= λ id. insert_waiting (new_waiting_row id slug k now) >>= λ _.
              pure (record {
                id = id;
                project_slug = slug;
                user_id = k;
                created_at = now;
                weighted_created_at = zero_time;
              }))
            w).0
  asked-Added slug user_id now (err e) w fails =
      failure-Added w.db user_id (w.uuids w.drawn) e (fails e refl)
  asked-Added slug user_id now (ok _) w fails =
      at_typed (λ q. Added w.db user_id (w.uuids w.drawn) q.0) (s.uuid user_id) _ w refl
        λ k is_key. drawn-Added slug user_id k now w is_key

  -- On PostgreSQL `Add` answers an entry only under the keys of the user and of what was drawn, where
  -- that user is known and does not wait; ErrAlreadyOnWaitingList only where the user waits or the
  -- drawn key is taken; ErrWaitingListForeignKey only where no user has the key; and anything else is
  -- an error without a sentinel.
  pub add-Added :
      (now : Time) (slug user_id : String) (w : World)
      → Added w.db user_id (w.uuids w.drawn) (add s now slug user_id w).0
  unfolding add ◌>>=◌
  add-Added now slug user_id w =
      subst (λ db. Added db user_id (w.uuids w.drawn) (add s now slug user_id w).0) (driver-db w)
        (subst (λ d. Added (driver w).1.db user_id d (add s now slug user_id w).0) (driver-draw w)
          (unfold ◌>>=◌ in
            asked-Added slug user_id now (driver w).0 (driver w).1 (driver-OnlyFails w)))
