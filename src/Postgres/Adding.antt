-- ===== src/Postgres/Adding.antt =====
-- internal/repository/postgres/waitinglist.go, `Add`: for a known user without access who belongs to
-- the project, the tables stay valid and have the new entry.
use mathlib.Core.Option.{some-injective}
use waitinglist.Prelude.{
  ◌≡◌, refl, sym, ap, ◌∙◌, String, false, not, some, [], ◌∷◌, ◌++◌, any, In, here, there, In-append,
  In-append_right, not-In-nil, Bool-cases, any-false, inl, inr,
}
use waitinglist.Model.{Time, UserEntity}
use waitinglist.Store.{Db, World, WaitingRow}
use waitinglist.Store.Keeps.{Keeps-driver, Keeps-new_uuid}
use waitinglist.Store.Ensures.{Ensures, Ensures-bind, Ensures-kept, Ensures-pure}
use waitinglist.Sqlite.Users.{has_id}
use waitinglist.Sqlite.Waiting.{has_entry_id, is_of_user, new_waiting_row}
use waitinglist.Invariant.Tables.{insert_waiting-IsValid}
use waitinglist.Invariant.Methods.{ne_of_str_eq}
use waitinglist.Repository.Keys.{Valid}
use waitinglist.Repository.Contract.{Waiting}
use waitinglist.Postgres.Server.{Server, IsServer}
use waitinglist.Postgres.Rules.{Ensures-typed}
use waitinglist.Postgres.Waiting.{insert_waiting, add}

module _ (s : Server) (start : Db) (v : UserEntity) (slug user_id : String)
    (same_user : v.id ≡ user_id) (no_access : v.has_access ≡ false)
    (same_project : v.project_slug ≡ slug) where
  abbrev Knows : Db → Type 0
  Knows db = Valid s.uuid db × In v db.user_entity × (db ≡ start)

  abbrev HasAdded : String → Db → Type 0
  HasAdded id db = Valid s.uuid db × In v db.user_entity × Waiting start slug user_id id db

  -- The key of a row is the text of the key.
  same_key : (k : String) (db : Db) → Knows db → s.uuid user_id ≡ some k → k ≡ user_id
  same_key k db ((valid, keys), known, at) is_key =
      some-injective _ _
        (sym is_key ∙ ap s.uuid (sym same_user) ∙ keys.user v known ∙ ap some same_user)

  module _ (now : Time) (id k : String) (is_key : s.uuid user_id ≡ some k)
      (is_id : s.uuid id ≡ some id) where
    abbrev row : WaitingRow
    row = new_waiting_row id slug k now

    added :
        (w : World)
        → Knows w.db
        → any (has_entry_id id) w.waiting_list ≡ false
        → any (is_of_user k) w.waiting_list ≡ false
        → HasAdded id (record w.db { waiting_list = w.waiting_list ++ row ∷ [] })
    added w h new free =
        let same = same_key k w.db h is_key in
        (
          (
            insert_waiting-IsValid h.0.0 row v h.1 (same_user ∙ sym same) no_access same_project
                (λ r m. ne_of_str_eq r.id id (any-false (has_entry_id id) w.waiting_list new m))
                (λ r m. ne_of_str_eq r.user_id k (any-false (is_of_user k) w.waiting_list free m)),
            record {
              user = h.0.1.user;
              entry = λ r m. elim (In-append w.waiting_list _ m) [
                | inl old ↦ h.0.1.entry r old
                | inr (here e) ↦ rw e is_id
                | inr (there x) ↦ absurd (not-In-nil x)
              ];
            },
          ),
          h.1,
          (
            row,
            In-append_right w.waiting_list (here refl),
            refl,
            same,
            refl,
            ap (λ (x : Db). record x { waiting_list = x.waiting_list ++ row ∷ [] }) h.2,
          ),
        )

    insertion-Ensures : Ensures Knows (insert_waiting row) (λ _. HasAdded id)
    unfolding insert_waiting
    insertion-Ensures = record {
      at = λ w h. elim (Bool-cases (any (has_entry_id id) w.waiting_list)) [
        | inl taken ↦ rw taken tt
        | inr new ↦ elim (Bool-cases (any (is_of_user k) w.waiting_list)) [
          | inl waits ↦ rw (new, waits) tt
          | inr free ↦ elim (Bool-cases (not (any (has_id k) w.user_entity))) [
            | inl unknown ↦ rw (new, free, unknown) tt
            | inr known ↦ rw (new, free, known) (added w h new free)
          ]
        ]
      ];
    }

  pub add-Ensures :
      (law : IsServer s) (now : Time) → Ensures Knows (add s now slug user_id) (λ e. HasAdded e.id)
  unfolding add
  add-Ensures law now = Ensures-bind _ _ (Ensures-kept _ Keeps-driver) λ _.
      Ensures-typed (s.uuid user_id) _ λ k is_key.
        Ensures-bind _ _ (Ensures-kept _ Keeps-new_uuid) λ drawn.
          Ensures-typed (s.uuid drawn) _ λ id is_id.
            Ensures-bind _ _ (insertion-Ensures now id k is_key (law.canonical drawn id is_id))
              λ _. Ensures-pure _ λ db h. h
