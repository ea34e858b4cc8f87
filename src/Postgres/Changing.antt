-- ===== src/Postgres/Changing.antt =====
-- What granting, revoking and removing have done to the tables, and the stamp of a success.
use waitinglist.Prelude.{
  ◌≡◌, refl, subst, String, true, false, Option, none, some, List, ◌∷◌, ◌==◌, ℕ,
}
use waitinglist.Prelude.Text.{str_eq, trim_space}
use waitinglist.Model.{Time, Result, ok, err}
use waitinglist.Store.{Db, World, WaitingRow}
use waitinglist.Store.Monad.{◌>>=◌, driver, proceed, raise}
use waitinglist.Store.Keeps.{
  Keeps, keeps_rules, Keeps-driver, driver-db, Keeps-bind, Keeps-if, Keeps-raise,
}
use waitinglist.Store.Ensures.{
  Ensures, Ensures-bind, Ensures-kept, Ensures-pure, Ensures-raise, Ensures-if, Ensures-given,
}
use waitinglist.Sqlite.Rows.{is_in}
use waitinglist.Sqlite.Users.{update_users, valid_grant_source}
use waitinglist.Sqlite.Waiting.{is_of_user, has_entry_id, delete_waiting}
use waitinglist.Sqlite.Scheduler.{put_value}
use waitinglist.Invariant.Grant.{Granted, Deleted, update_users-Ensures, delete_waiting-Ensures}
use waitinglist.Invariant.Revoke.{Revoked, update-Ensures}
use waitinglist.Invariant.Removal.{proceed-Removed, removal-Removed, driver-OnlyFails}
use waitinglist.Repository.Keys.{read_all}
use waitinglist.Repository.Contract.{Removed, Written, without_entry, with_revoked}
use waitinglist.Postgres.Server.{Server, typed}
use waitinglist.Postgres.Rules.{Ensures-typed, typed_all-Ensures, Keeps-typed}
use waitinglist.Postgres.Users.{
  affected, grant_matched, grant_access_tx, revoke_matched, revoke_access_tx,
}
use waitinglist.Postgres.Waiting.{removed, delete_by_ids_tx, delete_by_id_tx, delete_by_user_id_tx}
use waitinglist.Postgres.Scheduler.{update_last_success}

-- A method answers `ok` only if rows were affected.
affected-Ensures :
    {P Q : Db → Type 0} (n : ℕ)
    → ((db : Db) → (n == 0) ≡ false → P db → Q db)
    → Ensures P (affected n) (λ _. Q)
unfolding affected
affected-Ensures n f = Ensures-bind _ _ (Ensures-kept _ Keeps-driver) λ _.
    Ensures-if (n == 0) _ _ (λ _. Ensures-raise _) λ some_rows. Ensures-pure tt λ db. f db some_rows

affected-Keeps : {P : Db → Type 0} (n : ℕ) → Keeps P (affected n)
unfolding affected
affected-Keeps n = search keeps_rules

removed-Keeps : {P : Db → Type 0} (n : ℕ) → Keeps P (removed n)
unfolding removed
removed-Keeps n = search keeps_rules

write_last :
    (now : Time) (slug name : String) (r : Result (Unit {0})) (w : World)
    → Written w.db slug name (proceed r (λ _. put_value slug name now) w)
unfolding put_value
write_last now slug name (ok _) w = (now, refl)
write_last now slug name (err _) w = refl

pub update_last_success-Written :
    (now : Time) (slug name : String) (w : World)
    → Written w.db slug name (update_last_success now slug name w)
unfolding update_last_success ◌>>=◌
update_last_success-Written now slug name w =
    subst (λ d. Written d slug name (update_last_success now slug name w)) (driver-db w)
      (write_last now slug name (driver w).0 (driver w).1)

module _ (s : Server) where
  -- The tables hold what is said of the keys that the texts are read as.
  abbrev WithKeys : List String → (List String → Db → Type 0) → Db → Type 0
  WithKeys ids Q db = (ks : List String) × (read_all s.uuid ids ≡ some ks) × Q ks db

  abbrev WithKey : String → (String → Db → Type 0) → Db → Type 0
  WithKey id Q db = (k : String) × (s.uuid id ≡ some k) × Q k db

  grant_matched-Ensures :
      (now : Time) (P : Db → Type 0) (ids : List String) (source : String)
      → Ensures P (grant_matched s now ids source) (λ _. WithKeys ids (λ ks. Granted P ks source))
  unfolding grant_matched
  grant_matched-Ensures now P ids source = Ensures-bind _ _ (Ensures-kept _ Keeps-driver) λ _.
      Ensures-bind _ _ (typed_all-Ensures s.uuid ids) λ ks. Ensures-given λ is_keys.
        Ensures-bind _ _ (update_users-Ensures P ks source now)
          λ n. affected-Ensures n λ db some_rows g. (ks, is_keys, g some_rows)

  pub grant_access_tx-Ensures :
      (now : Time) (P : Db → Type 0) (id : String) (ids : List String) (source : String)
      → valid_grant_source source ≡ true
      → Ensures P
          (grant_access_tx s now (id ∷ ids) source)
          (λ _. WithKeys (id ∷ ids) (λ ks. Granted P ks source))
  unfolding grant_access_tx
  grant_access_tx-Ensures now P id ids source valid =
      rw valid (grant_matched-Ensures now P (id ∷ ids) source)

  pub delete_by_user_id_tx-Ensures :
      (P : Db → Type 0) (id : String)
      → Ensures P (delete_by_user_id_tx s id) (λ _. WithKey id (λ k. Deleted P (is_of_user k)))
  unfolding delete_by_user_id_tx
  delete_by_user_id_tx-Ensures P id = Ensures-bind _ _ (Ensures-kept _ Keeps-driver) λ _.
      Ensures-typed (s.uuid id) _ λ k is_key.
        Ensures-bind _ _ (delete_waiting-Ensures P (is_of_user k))
          λ _. Ensures-pure tt λ db h. (k, is_key, h)

  pub delete_by_ids_tx-Ensures :
      (P : Db → Type 0) (id : String) (ids : List String)
      → Ensures P
          (delete_by_ids_tx s (id ∷ ids))
          (λ _. WithKeys (id ∷ ids) (λ ks. Deleted P (λ (r : WaitingRow). is_in ks r.id)))
  unfolding delete_by_ids_tx
  delete_by_ids_tx-Ensures P id ids = Ensures-bind _ _ (Ensures-kept _ Keeps-driver) λ _.
      Ensures-bind _ _ (typed_all-Ensures s.uuid (id ∷ ids)) λ ks. Ensures-given λ is_keys.
        Ensures-bind _ _ (delete_waiting-Ensures P (λ (r : WaitingRow). is_in ks r.id))
          λ _. Ensures-pure tt λ db g. (ks, is_keys, g)

  -- A text that is no uuid is an error without a sentinel.
  removing :
      (id : String) (o : Option String) (w : World)
      → s.uuid id ≡ o
      → Removed s.uuid w.db id
          ((typed o >>= λ k. delete_waiting (has_entry_id k) >>= λ n. removed n) w)
  unfolding typed removed raise ◌>>=◌
  removing id none w is = λ same. absurd (cc)
  removing id (some k) w is = unfold ◌>>=◌ in removal-Removed s.uuid w.db id k is w refl

  pub delete_by_id_tx-Removed :
      (id : String) (w : World) → Removed s.uuid w.db id (delete_by_id_tx s id w)
  unfolding delete_by_id_tx ◌>>=◌
  delete_by_id_tx-Removed id w =
      subst (λ db. Removed s.uuid db id (delete_by_id_tx s id w)) (driver-db w)
        (proceed-Removed s.uuid (driver w).1.db id (driver w).0 _ (driver w).1 (driver-OnlyFails w)
          λ _ answered. unfold ◌>>=◌ in removing id (s.uuid id) (driver w).1 refl)

  -- Whatever the removal of an entry keeps is kept.
  pub delete_by_id_tx-Keeps :
      (P : Db → Type 0) (id : String)
      → ((k : String) (db : Db) → s.uuid id ≡ some k → P db → P (without_entry k db))
      → Keeps P (delete_by_id_tx s id)
  unfolding delete_by_id_tx delete_waiting
  delete_by_id_tx-Keeps P id closed = Keeps-bind _ _ Keeps-driver λ _.
      Keeps-typed (s.uuid id) _ λ k is_key.
        Keeps-bind _ _ (record { at = λ w h. closed k w.db is_key h }) λ n. removed-Keeps n

  -- Whatever the revocation of a user keeps is kept.
  pub revoke_access_tx-Keeps :
      (now : Time) (P : Db → Type 0) (id reason by : String)
      → ((k : String) (now : Time) (db : Db)
          → s.uuid id ≡ some k
          → P db
          → P (with_revoked k now by reason db))
      → Keeps P (revoke_access_tx s now id reason by)
  unfolding revoke_access_tx revoke_matched update_users
  revoke_access_tx-Keeps now P id reason by closed =
      Keeps-if (str_eq (trim_space reason) "") _ _ (Keeps-raise _) (
        Keeps-bind _ _ Keeps-driver λ _. Keeps-typed (s.uuid id) _ λ k is_key.
          Keeps-bind _ _ (record { at = λ w h. closed k now w.db is_key h }) λ n. affected-Keeps n)

  revoke_matched-Ensures :
      (now : Time) (before : Db) (id reason by : String)
      → Ensures
          (λ db. db ≡ before)
          (revoke_matched s now id reason by)
          (λ _. WithKey id (λ k. Revoked before k by reason))
  unfolding revoke_matched
  revoke_matched-Ensures now before id reason by =
      Ensures-bind _ _ (Ensures-kept _ Keeps-driver) λ _. Ensures-typed (s.uuid id) _ λ k is_key.
        Ensures-bind _ _ (update-Ensures before k by reason now)
          λ n. affected-Ensures n λ db some_rows h. (k, is_key, h some_rows)

  pub revoke_access_tx-Ensures :
      (now : Time) (before : Db) (id reason by : String)
      → Ensures
          (λ db. db ≡ before)
          (revoke_access_tx s now id reason by)
          (λ _. WithKey id (λ k. Revoked before k by reason))
  unfolding revoke_access_tx
  revoke_access_tx-Ensures now before id reason by =
      Ensures-if (str_eq (trim_space reason) "") _ _ (λ _. Ensures-raise _)
        λ _. revoke_matched-Ensures now before id reason by
