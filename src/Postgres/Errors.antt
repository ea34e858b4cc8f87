-- ===== src/Postgres/Errors.antt =====
-- internal/repository/postgres/{user,waitinglist}.go: which errors the methods answer, and when.
use waitinglist.Prelude.{
  ◌≡◌, ◌≢◌, refl, subst, sym, String, Option, none, some, In, find_first, find_first-In,
  find_first-none,
}
use waitinglist.Prelude.Text.{str_eq_sound}
use waitinglist.Prelude.Reordered.{In-Reordered, Reordered-sym}
use waitinglist.Model.{Error, Result, ok, err, failed, user_not_found, UserEntity}
use waitinglist.Store.{Db, World}
use waitinglist.Store.Monad.{◌>>=◌, driver, get_db, proceed, pure, raise}
use waitinglist.Store.Keeps.{driver-db}
use waitinglist.Invariant.Removal.{driver-OnlyFails}
use waitinglist.Invariant.Methods.{ne_of_str_eq}
use waitinglist.Sqlite.Users.{has_id}
use waitinglist.Postgres.Server.{Server, IsServer, typed}
use waitinglist.Postgres.Rules.{at_typed}
use waitinglist.Postgres.Users.{or_not_found, get_by_id}

-- No user has that key.
abbrev pub IsUnknown : String → Db → Type 0
IsUnknown k db = (u : UserEntity) → In u db.user_entity → u.id ≢ k

module _ (s : Server) where
  -- What `GetByID` can answer of those tables.
  abbrev pub LookedUp : Db → String → Result UserEntity → Type 0
  LookedUp db id (ok u) = (k : String) × (s.uuid id ≡ some k) × In u db.user_entity × (u.id ≡ k)
  LookedUp db id (err user_not_found) = (k : String) × (s.uuid id ≡ some k) × IsUnknown k db
  LookedUp db id (err e) = e ≡ failed

  failure-LookedUp : (db : Db) (id : String) (e : Error) → e ≡ failed → LookedUp db id (err e)
  failure-LookedUp db id e h = subst (λ x. LookedUp db id (err x)) (sym h) refl

  module _ (law : IsServer s) where
    found-LookedUp :
        (id k : String) (o : Option UserEntity) (w : World)
        → s.uuid id ≡ some k
        → find_first (has_id k) (s.scan_users w.db.user_entity) ≡ o
        → LookedUp w.db id (or_not_found o w).0
    unfolding or_not_found raise pure
    found-LookedUp id k none w is_key e = (
      k,
      is_key,
      λ u m. ne_of_str_eq u.id k (
          find_first-none (has_id k) (s.scan_users w.db.user_entity) e
            (In-Reordered (Reordered-sym (law.users_once w.db.user_entity)) m)),
    )
    found-LookedUp id k (some u) w is_key e =
        let m = find_first-In (has_id k) (s.scan_users w.db.user_entity) e in
        (k, is_key, In-Reordered (law.users_once w.db.user_entity) m.0, str_eq_sound u.id k m.1)

    asked-LookedUp :
        (id : String) (r : Result (Unit {0})) (w : World)
        → ((e : Error) → r ≡ err e → e ≡ failed)
        → LookedUp w.db id
            (proceed r
              (λ _. typed (s.uuid id) >>= λ k.
                get_db >>= λ db. or_not_found (find_first (has_id k) (s.scan_users db.user_entity)))
              w).0
    unfolding ◌>>=◌
    asked-LookedUp id (err e) w fails = failure-LookedUp w.db id e (fails e refl)
    asked-LookedUp id (ok _) w fails =
        at_typed (λ q. LookedUp w.db id q.0) (s.uuid id) _ w refl
          λ k is_key.
            found-LookedUp id k (find_first (has_id k) (s.scan_users w.db.user_entity)) w is_key
              refl

    -- On PostgreSQL `GetByID` answers ErrUserNotFound only for a text that is a uuid whose key no user
    -- has, and a user only where its key is that of the text; everything else, a text that is no uuid
    -- among it, is an error without a sentinel.
    pub get_by_id-LookedUp : (id : String) (w : World) → LookedUp w.db id (get_by_id s id w).0
    unfolding get_by_id ◌>>=◌
    get_by_id-LookedUp id w =
        subst (λ db. LookedUp db id (get_by_id s id w).0) (driver-db w)
          (unfold ◌>>=◌ in asked-LookedUp id (driver w).0 (driver w).1 (driver-OnlyFails w))
