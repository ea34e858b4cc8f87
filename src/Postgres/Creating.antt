-- ===== src/Postgres/Creating.antt =====
-- internal/repository/postgres/user.go, `CreateTx`: the user is a row now, with a new key, and the
-- tables stay valid.
use mathlib.Core.Option.{some-injective, Option, some}
use Prim.Native.String.{[] as empty, ◌∷◌ as cons_char, String}
use Prim.Native.Char.{Char}
use waitinglist.Prelude.{
  ◌≡◌, refl, subst, ap, ◌∙◌, String, Bool, true, false, zero, suc, ℕ, Option, none, some, any, here,
  there, In-append, In-append_right, not-In-nil, Bool-cases, inl, inr, if◌then◌else◌,
}
use waitinglist.Model.{Time, Result, UserEntity}
use waitinglist.Store.{World}
use waitinglist.Store.Monad.{◌>>=◌, pure, driver, new_uuid, proceed}
use waitinglist.Store.Keeps.{Keeps, Keeps-bind, Keeps-pure, Keeps-driver, Keeps-new_uuid, driver-db}
use waitinglist.Sqlite.Users.{has_id, has_address, new_user_row}
use waitinglist.Invariant.{IsValid}
use waitinglist.Invariant.Methods.{new_user-IsValid}
use waitinglist.Repository.Keys.{HasKeys, Valid}
use waitinglist.Repository.Contract.{IsCreated}
use waitinglist.Postgres.Server.{
  Server, IsServer, typed, typed_null, varchar, all_spaces, with_char,
}
use waitinglist.Postgres.Rules.{
  typed-Keeps, typed_null-Keeps, Keeps-typed, at_typed, at_typed_null, at_proceed,
}
use waitinglist.Postgres.Users.{insert_user, create_tx}

-- What the column `varchar(255)` keeps of a text.
abbrev text_of : String → Option String → String
text_of t none = t
text_of t (some kept) = kept

unfoldable pub stored_text : String → String
stored_text t = text_of t (varchar 255 t)

with_char-some :
    (n : ℕ) (c : Char) (o : Option String) (kept : String)
    → ((t : String) → o ≡ some t → varchar n t ≡ some t)
    → with_char c o ≡ some kept
    → varchar (suc n) kept ≡ some kept
unfolding varchar
with_char-some n c none kept again h = absurd (cc)
with_char-some n c (some t) kept again h =
    subst (λ k. varchar (suc n) k ≡ some k) (some-injective _ _ h) (rw (again t refl) refl)

spaces-some :
    (b : Bool) (kept : String)
    → (if b then some empty else none) ≡ some kept
    → varchar zero kept ≡ some kept
unfolding varchar
spaces-some true kept h = subst (λ k. varchar zero k ≡ some k) (some-injective _ _ h) refl
spaces-some false kept h = absurd (cc)

-- What the column has kept, it keeps.
varchar_again : (n : ℕ) (t kept : String) → varchar n t ≡ some kept → varchar n kept ≡ some kept
unfolding varchar
varchar_again n empty kept h = subst (λ k. varchar n k ≡ some k) (some-injective _ _ h) refl
varchar_again zero (cons_char c t) kept h = spaces-some (all_spaces (cons_char c t)) kept h
varchar_again (suc n) (cons_char c t) kept h =
    with_char-some n c (varchar n t) kept (varchar_again n t) h

stored_text-kept : (t kept : String) → varchar 255 t ≡ some kept → stored_text kept ≡ stored_text t
unfolding stored_text
stored_text-kept t kept h = rw (h, varchar_again 255 t kept h) refl

insertion-IsValid :
    (id : String) (now : Time) (user : UserEntity)
    → Keeps IsValid (insert_user (new_user_row id now user))
unfolding insert_user
insertion-IsValid id now user = record {
  at = λ w v. elim (Bool-cases (any (has_id id) w.user_entity)) [
    | inl taken ↦ rw taken v
    | inr new ↦ elim (Bool-cases (any (has_address user.project_slug user.email) w.user_entity)) [
      | inl taken ↦ rw (new, taken) v
      | inr free ↦ rw (new, free) (new_user-IsValid id now user w v new free)
    ]
  ];
}

module _ (s : Server) where
  insertion-HasKeys :
      (row : UserEntity) → s.uuid row.id ≡ some row.id → Keeps (HasKeys s.uuid) (insert_user row)
  unfolding insert_user
  insertion-HasKeys row is_key = record {
    at = λ w h. elim (Bool-cases (any (has_id row.id) w.user_entity)) [
      | inl taken ↦ rw taken h
      | inr new ↦ elim (Bool-cases (any (has_address row.project_slug row.email) w.user_entity)) [
        | inl taken ↦ rw (new, taken) h
        | inr free ↦
            rw (new, free)
              (record {
                user = λ u m. elim (In-append w.user_entity _ m) [
                  | inl old ↦ h.user u old
                  | inr (here e) ↦ rw e is_key
                  | inr (there k) ↦ absurd (not-In-nil k)
                ];
                entry = h.entry;
              })
      ]
    ];
  }

  insertion-Keeps :
      (id : String) (now : Time) (user : UserEntity)
      → s.uuid id ≡ some id
      → Keeps (Valid s.uuid) (insert_user (new_user_row id now user))
  insertion-Keeps id now user is_key = record {
    at = λ w (v, keys). (
      (insertion-IsValid id now user).at w v,
      (insertion-HasKeys (new_user_row id now user) is_key).at w keys,
    );
  }

  module _ (law : IsServer s) (now : Time) (user : UserEntity) where
    pub create_tx-Keeps : Keeps (Valid s.uuid) (create_tx s now user)
    unfolding create_tx
    create_tx-Keeps = Keeps-bind _ _ Keeps-driver λ _. Keeps-bind _ _ (typed-Keeps _) λ firstname.
        Keeps-bind _ _ (typed-Keeps _) λ lastname. Keeps-bind _ _ (typed-Keeps _) λ email.
          Keeps-bind _ _ (typed_null-Keeps s.inet user.ip_address) λ ip_address.
            Keeps-bind _ _ Keeps-new_uuid λ drawn. Keeps-typed (s.uuid drawn) _ λ id is_id.
              Keeps-bind _ _
                (insertion-Keeps id now
                  (record user {
                    firstname = firstname;
                    lastname = lastname;
                    email = email;
                    ip_address = ip_address;
                  })
                  (law.canonical drawn id is_id))
                λ _. Keeps-pure _

    -- Where the row was inserted, it is what `IsCreated` asks for.
    inserted-IsCreated :
        (w : World) (id email : String) (stored : UserEntity)
        → stored.email ≡ email
        → stored.project_slug ≡ user.project_slug
        → varchar 255 user.email ≡ some email
        → let r =
            (insert_user (new_user_row id now stored) >>= λ _.
            pure (record user { id = id; has_access = false; created_at = now }))
              w in
          IsCreated stored_text w.db r.1.db user r.0
    unfolding insert_user ◌>>=◌
    inserted-IsCreated w id email stored is_email is_project fits =
        elim (Bool-cases (any (has_id id) w.user_entity)) [
          | inl taken ↦ rw taken tt
          | inr new ↦
              elim (Bool-cases (any (has_address stored.project_slug stored.email) w.user_entity)) [
                | inl taken ↦ rw (new, taken) tt
                | inr free ↦
                    rw (new, free)
                      (
                        new_user_row id now stored,
                        In-append_right w.user_entity (here refl),
                        refl,
                        refl,
                        is_project,
                        ap stored_text is_email ∙ stored_text-kept user.email email fits,
                        refl,
                      )
              ]
        ]

    keyed-IsCreated :
        (w : World) (email : String) (stored : UserEntity)
        → stored.email ≡ email
        → stored.project_slug ≡ user.project_slug
        → varchar 255 user.email ≡ some email
        → let r =
            (new_uuid >>= λ drawn. typed (s.uuid drawn) >>= λ id.
            insert_user (new_user_row id now stored) >>= λ _.
            pure (record user { id = id; has_access = false; created_at = now }))
              w in
          IsCreated stored_text w.db r.1.db user r.0
    unfolding ◌>>=◌
    keyed-IsCreated w email stored is_email is_project fits =
        at_typed (λ q. IsCreated stored_text w.db q.1.db user q.0) (s.uuid (w.uuids w.drawn)) _
          (new_uuid w).1 tt
          λ id is_id. inserted-IsCreated (new_uuid w).1 id email stored is_email is_project fits

    after_driver-IsCreated :
        (r : Result (Unit {0})) (w : World)
        → let q =
            proceed r
              (λ _. typed (varchar 255 user.firstname) >>= λ firstname.
                typed (varchar 255 user.lastname) >>= λ lastname.
                typed (varchar 255 user.email) >>= λ email.
                typed_null s.inet user.ip_address >>= λ ip_address. new_uuid >>= λ drawn.
                typed (s.uuid drawn) >>= λ id.
                insert_user (
                  new_user_row id now (record user {
                    firstname = firstname;
                    lastname = lastname;
                    email = email;
                    ip_address = ip_address;
                  }))
                >>= λ _. pure (record user { id = id; has_access = false; created_at = now }))
              w in
          IsCreated stored_text w.db q.1.db user q.0
    after_driver-IsCreated r w =
        let Q = λ (q : Result UserEntity × World). IsCreated stored_text w.db q.1.db user q.0 in
        at_proceed Q r _ w (λ e. tt)
          λ _. at_typed Q (varchar 255 user.firstname) _ w tt λ firstname is_firstname.
            at_typed Q (varchar 255 user.lastname) _ w tt λ lastname is_lastname.
              at_typed Q (varchar 255 user.email) _ w tt λ email is_email.
                at_typed_null Q s.inet user.ip_address _ w tt λ ip_address.
                  keyed-IsCreated w email
                    (record user {
                      firstname = firstname;
                      lastname = lastname;
                      email = email;
                      ip_address = ip_address;
                    })
                    refl refl is_email

    pub create_tx-IsCreated :
        (w : World)
        → IsCreated stored_text w.db (create_tx s now user w).1.db user (create_tx s now user w).0
    unfolding create_tx ◌>>=◌
    create_tx-IsCreated w =
        subst
          (λ d.
            IsCreated stored_text d (create_tx s now user w).1.db user (create_tx s now user w).0)
          (driver-db w) (unfold ◌>>=◌ in after_driver-IsCreated (driver w).0 (driver w).1)
