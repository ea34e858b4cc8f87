-- ===== src/Invariant/Methods.antt =====
-- The repository methods that write, one at a time, keep the tables valid.
use waitinglist.Prelude.{
  ◌≡◌, ◌≢◌, refl, subst, String, Bool, true, false, not, ◌&&◌, [], ◌∷◌, arith, any, In,
  In-append_right, here, any-false, Bool-cases, inl, inr, ap, ◌++◌,
}
use waitinglist.Prelude.Text.{str_eq, str_eq_refl}
use waitinglist.Model.{Time, Result, ok, err, UserEntity}
use waitinglist.Store.{Db, World}
use waitinglist.Store.Monad.{◌>>=◌, pure, sql_now, proceed, driver, new_uuid}
use waitinglist.Store.Ensures.{Ensures, Ensures-bind, Ensures-kept, Ensures-pure}
use waitinglist.Store.Keeps.{
  Keeps-driver, Keeps-sql_now, Keeps-new_uuid, Keeps, keeps_rules, driver-db,
}
use waitinglist.Sqlite.Users.{has_id, has_address, new_user_row, insert_user, create_tx, revoke_row}
use waitinglist.Sqlite.Waiting.{has_entry_id, is_of_user, new_waiting_row, insert_waiting, add}
use waitinglist.Invariant.{IsValid, IsAudited}
use waitinglist.Invariant.Tables.{insert_user-IsValid, insert_waiting-IsValid}
use waitinglist.Invariant.Update.{update_users-IsValid}
use waitinglist.Repository.Contract.{Waiting, IsCreated, with_revoked}

pub ne_of_str_eq : (s t : String) → str_eq s t ≡ false → s ≢ t
ne_of_str_eq s t h e =
    let k : str_eq s t ≡ true = subst (λ x. str_eq s x ≡ true) e (str_eq_refl s) in cc

pub and_false : (a b : Bool) → (a && b) ≡ false → a ≡ true → b ≡ false
and_false a b h e = ground arith

new_user_row-IsAudited :
    (id : String) (now : Time) (u : UserEntity) → IsAudited (new_user_row id now u)
new_user_row-IsAudited id now u = record {
  revoke_pair = refl;
  source = λ s e. absurd (cc);
  dated = λ e. absurd (cc);
  attributed = λ e. absurd (cc);
  unrevoked = λ e. absurd (cc);
}

-- A row whose keys no row has.
pub new_user-IsValid :
    (id : String) (now : Time) (user : UserEntity) (w : World)
    → IsValid w.db
    → any (has_id id) w.user_entity ≡ false
    → any (has_address user.project_slug user.email) w.user_entity ≡ false
    → IsValid (record w.db { user_entity = w.user_entity ++ new_user_row id now user ∷ [] })
new_user-IsValid id now user w v new free =
    insert_user-IsValid v (new_user_row id now user)
      (λ u m. ne_of_str_eq u.id id (any-false (has_id id) w.user_entity new m))
      (λ u m e. ne_of_str_eq u.email user.email (
        and_false (str_eq u.project_slug user.project_slug) _
          (any-false (has_address user.project_slug user.email) w.user_entity free m)
          (rw e (str_eq_refl user.project_slug))))
      refl (new_user_row-IsAudited id now user)

insert_user-Keeps :
    (id : String) (now : Time) (user : UserEntity) → Keeps IsValid (insert_user id now user)
unfolding insert_user
insert_user-Keeps id now user = record {
  at = λ w v. elim (Bool-cases (any (has_id id) w.user_entity)) [
    | inl taken ↦ rw taken v
    | inr new ↦ elim (Bool-cases (any (has_address user.project_slug user.email) w.user_entity)) [
      | inl taken ↦ rw (new, taken) v
      | inr free ↦ rw (new, free) (new_user-IsValid id now user w v new free)
    ]
  ];
}

pub create_tx-Keeps : (user : UserEntity) → Keeps IsValid (create_tx user)
unfolding create_tx
create_tx-Keeps user = search (keeps_rules, insert_user-Keeps)

revoke_row-IsAudited :
    (now : Time) (by reason : String) (u : UserEntity)
    → IsAudited u
    → IsAudited (revoke_row now by reason u)
revoke_row-IsAudited now by reason u a = record {
  revoke_pair = refl;
  source = a.source;
  dated = λ e. absurd (cc);
  attributed = λ e. absurd (cc);
  unrevoked = λ e. absurd (cc);
}

-- A revocation keeps the tables valid.
pub with_revoked-IsValid :
    (id by reason : String) (now : Time) (db : Db)
    → IsValid db
    → IsValid (with_revoked id now by reason db)
with_revoked-IsValid id by reason now db v =
    update_users-IsValid v (has_id id) (revoke_row now by reason) db.waiting_list (λ r m. m)
      (λ u. refl) (λ u. refl) (λ u. refl) (revoke_row-IsAudited now by reason)
      (λ u r mu mr e p. refl)

-- With a known user who has no access and belongs to the project, so does `Add`.
module _ (start : Db) (v : UserEntity) (slug user_id : String) (same_user : v.id ≡ user_id)
    (no_access : v.has_access ≡ false) (same_project : v.project_slug ≡ slug) where
  abbrev pub Knows : Db → Type 0
  Knows db = IsValid db × In v db.user_entity × (db ≡ start)

  insert_waiting-Ensures :
      (id : String) (now : Time)
      → Ensures Knows
          (insert_waiting id slug user_id now)
          (λ _ db. IsValid db × In v db.user_entity × Waiting start slug user_id id db)
  unfolding insert_waiting
  insert_waiting-Ensures id now = record {
    at = λ w k. elim (Bool-cases (any (has_entry_id id) w.waiting_list)) [
      | inl taken ↦ rw taken tt
      | inr new ↦ elim (Bool-cases (any (is_of_user user_id) w.waiting_list)) [
        | inl waits ↦ rw (new, waits) tt
        | inr free ↦ elim (Bool-cases (not (any (has_id user_id) w.user_entity))) [
          | inl unknown ↦ rw (new, free, unknown) tt
          | inr known ↦
              rw (new, free, known)
                (
                  insert_waiting-IsValid k.0 (new_waiting_row id slug user_id now) v k.1 same_user
                      no_access same_project
                      (λ r m.
                        ne_of_str_eq r.id id (any-false (has_entry_id id) w.waiting_list new m))
                      (λ r m.
                        ne_of_str_eq r.user_id user_id
                          (any-false (is_of_user user_id) w.waiting_list free m)),
                  k.1,
                  (
                    new_waiting_row id slug user_id now,
                    In-append_right w.waiting_list (here refl),
                    refl,
                    refl,
                    refl,
                    ap
                        (λ (x : Db). record x {
                          waiting_list = x.waiting_list ++ new_waiting_row id slug user_id now ∷ [];
                        })
                        k.2,
                  ),
                )
        ]
      ]
    ];
  }

  pub add-Ensures :
      Ensures Knows
        (add slug user_id)
        (λ e db. IsValid db × In v db.user_entity × Waiting start slug user_id e.id db)
  unfolding add
  add-Ensures = Ensures-bind _ _ (Ensures-kept _ Keeps-new_uuid) λ id.
      Ensures-bind _ _ (Ensures-kept _ Keeps-driver) λ _.
        Ensures-bind _ _ (Ensures-kept _ Keeps-sql_now)
          λ now. Ensures-bind _ _ (insert_waiting-Ensures id now) λ _. Ensures-pure _ λ db h. h

inserted-IsCreated :
    (id : String) (now : Time) (user : UserEntity) (w : World)
    → let m = insert_user id now user >>= λ _.
        pure (record user { id = id; has_access = false; created_at = now }) in
      IsCreated (λ t. t) w.db (m w).1.db user (m w).0
unfolding insert_user ◌>>=◌
inserted-IsCreated id now user w = elim (Bool-cases (any (has_id id) w.user_entity)) [
  | inl taken ↦ rw taken tt
  | inr new ↦ elim (Bool-cases (any (has_address user.project_slug user.email) w.user_entity)) [
    | inl taken ↦ rw (new, taken) tt
    | inr free ↦
        rw (new, free)
          (
            new_user_row id now user,
            In-append_right w.user_entity (here refl),
            refl,
            refl,
            refl,
            refl,
            refl,
          )
  ]
]

proceed-IsCreated :
    (id : String) (user : UserEntity) (r : Result (Unit {0})) (w : World)
    → let f = λ (_ : Unit {0}). sql_now >>= λ now. insert_user id now user >>= λ _.
        pure (record user { id = id; has_access = false; created_at = now }) in
      IsCreated (λ t. t) w.db (proceed r f w).1.db user (proceed r f w).0
unfolding ◌>>=◌
proceed-IsCreated id user (err _) w = tt
proceed-IsCreated id user (ok _) w = unfold ◌>>=◌ in inserted-IsCreated id _ user _

pub create_tx-IsCreated :
    (user : UserEntity) (w : World)
    → IsCreated (λ t. t) w.db (create_tx user w).1.db user (create_tx user w).0
unfolding create_tx ◌>>=◌
create_tx-IsCreated user w =
    let asked = driver (new_uuid w).1 in
    subst (λ d. IsCreated (λ t. t) d (create_tx user w).1.db user (create_tx user w).0)
      (driver-db (new_uuid w).1) (proceed-IsCreated (w.uuids w.drawn) user asked.0 asked.1)
