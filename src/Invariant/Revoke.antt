-- ===== src/Invariant/Revoke.antt =====
-- What it means that a user was revoked, and that the UPDATE does it.
use waitinglist.Prelude.{
  ◌≡◌, refl, subst, ap, String, Bool, false, some, In, any-In, map-In, ◌==◌, if◌then◌else◌,
}
use waitinglist.Prelude.Text.{str_eq_sound}
use waitinglist.Model.{Time, UserEntity}
use waitinglist.Store.{Db}
use waitinglist.Store.Ensures.{Ensures}
use waitinglist.Sqlite.Rows.{update_where}
use waitinglist.Sqlite.Users.{has_id, revoke_row, update_users}
use waitinglist.Invariant.Grant.{some_matched}

-- The user is in the tables and has no access, revoked by that admin for that reason, and the tables
-- are otherwise those before.
pub record Revoked (before : Db) (id by reason : String) (db : Db) : Type 0 where
  pub user : UserEntity
  pub known : In user db.user_entity
  pub same : user.id ≡ id
  pub no_access : user.has_access ≡ false
  pub revoked_by : user.access_revoked_by ≡ some by
  pub given_reason : user.access_revoke_reason ≡ some reason
  pub now : Time
  pub result : db ≡ record before {
    user_entity = update_where (has_id id) (revoke_row now by reason) before.user_entity;
  }

module _ (before : Db) (id by reason : String) where
  -- Revoked, once it is known that the UPDATE matched something.
  abbrev pub RevokedIf : Bool → Db → Type 0
  RevokedIf none_matched db = (none_matched ≡ false) → Revoked before id by reason db

  pub update-Ensures :
      (now : Time)
      → Ensures
          (λ db. db ≡ before)
          (update_users (has_id id) (revoke_row now by reason))
          (λ n. RevokedIf (n == 0))
  unfolding update_users
  update-Ensures now = record {
    at = λ w h e.
        let m = any-In (has_id id) w.user_entity (some_matched (has_id id) w.user_entity e) in
        let v = revoke_row now by reason m.0 in
        let f = λ (a : UserEntity). if has_id id a then revoke_row now by reason a else a in
        let changed : f m.0 ≡ v = rw (m.2) refl in
        record {
          user = v;
          known =
              subst (λ x. In x (update_where (has_id id) (revoke_row now by reason) w.user_entity))
                changed (map-In f m.1);
          same = str_eq_sound m.0.id id m.2;
          no_access = refl;
          revoked_by = refl;
          given_reason = refl;
          now = now;
          result =
              ap
                (λ (x : Db). record x {
                  user_entity = update_where (has_id id) (revoke_row now by reason) x.user_entity;
                })
                h;
        };
  }
