-- ===== src/Invariant/Update.antt =====
-- An UPDATE of users, together with the removal of rows of the waiting list, keeps the tables valid
-- if it leaves the keys alone and gives no access to anyone who still waits.
use waitinglist.Prelude.{
  ◌≡◌, refl, sym, ap, ◌∙◌, subst, Bool, true, false, List, if◌then◌else◌, In, map-In,
}
use waitinglist.Model.{UserEntity}
use waitinglist.Store.{Db, WaitingRow}
use waitinglist.Sqlite.Rows.{update_where, In-update_where}
use waitinglist.Invariant.{IsValid, IsAudited}

pub column-if {ℓ κ} :
    {A : Type ℓ} {B : Type κ} (b : Bool) (c : A → B) (x y : A)
    → c x ≡ c y
    → c (if b then x else y) ≡ c y
column-if true c x y h = h
column-if false c x y h = refl

module _ {db : Db} (v : IsValid db) (p : UserEntity → Bool) (f : UserEntity → UserEntity)
    (ws : List WaitingRow) (sub : (r : WaitingRow) → In r ws → In r db.waiting_list)
    (same_id : (u : UserEntity) → (f u).id ≡ u.id)
    (same_project : (u : UserEntity) → (f u).project_slug ≡ u.project_slug)
    (same_email : (u : UserEntity) → (f u).email ≡ u.email)
    (keeps_audit : (u : UserEntity) → IsAudited u → IsAudited (f u))
    (no_access : (u : UserEntity) (r : WaitingRow)
      → In u db.user_entity
      → In r ws
      → u.id ≡ r.user_id
      → p u ≡ true
      → (f u).has_access ≡ false) where
  abbrev users : List UserEntity
  users = update_where p f db.user_entity

  abbrev changed : UserEntity → UserEntity
  changed u = if p u then f u else u

  -- a user after the UPDATE, by the user before it, with the columns that stay
  record Origin (u : UserEntity) : Type 0 where
    old : UserEntity
    known : In old db.user_entity
    now : u ≡ changed old
    id : u.id ≡ old.id
    project : u.project_slug ≡ old.project_slug
    email : u.email ≡ old.email

  origin : {u : UserEntity} → In u users → Origin u
  origin m =
      let (b, k, e) = In-update_where p f db.user_entity m in
      record {
        old = b;
        known = k;
        now = e;
        id =
            ap (λ (x : UserEntity). x.id) e
            ∙ column-if (p b) (λ (x : UserEntity). x.id) (f b) b (same_id b);
        project =
            ap (λ (x : UserEntity). x.project_slug) e
            ∙ column-if (p b) (λ (x : UserEntity). x.project_slug) (f b) b (same_project b);
        email =
            ap (λ (x : UserEntity). x.email) e
            ∙ column-if (p b) (λ (x : UserEntity). x.email) (f b) b (same_email b);
      }

  changed_audit : (b : Bool) (u : UserEntity) → IsAudited u → IsAudited (if b then f u else u)
  changed_audit true u h = keeps_audit u h
  changed_audit false u h = h

  changed_access :
      (b : Bool) (u : UserEntity)
      → (b ≡ true → (f u).has_access ≡ false)
      → u.has_access ≡ false
      → (if b then f u else u).has_access ≡ false
  changed_access true u h k = h refl
  changed_access false u h k = k

  pub update_users-IsValid : IsValid (record db { user_entity = users; waiting_list = ws })
  update_users-IsValid = record {
    user_key = λ u w mu mw e.
        let a = origin mu in
        let b = origin mw in
        a.now
        ∙ ap changed (v.user_key a.old b.old a.known b.known (sym a.id ∙ e ∙ b.id))
        ∙ sym b.now;
    address_key = λ u w mu mw ep ee.
        let a = origin mu in
        let b = origin mw in
        a.now
        ∙ ap changed (
            v.address_key a.old b.old a.known b.known (sym a.project ∙ ep ∙ b.project)
              (sym a.email ∙ ee ∙ b.email))
        ∙ sym b.now;
    entry_key = λ r s mr ms. v.entry_key r s (sub r mr) (sub s ms);
    waiting_key = λ r s mr ms. v.waiting_key r s (sub r mr) (sub s ms);
    waiting_known = λ r m.
        let k = v.waiting_known r (sub r m) in
        (
          changed k.0,
          map-In changed k.1,
          column-if (p k.0) (λ (x : UserEntity). x.id) (f k.0) k.0 (same_id k.0) ∙ k.2,
        );
    waiting_no_access = λ u r mu mr e.
        let a = origin mu in
        ap (λ (x : UserEntity). x.has_access) a.now
        ∙ changed_access (p a.old) a.old (no_access a.old r a.known mr (sym a.id ∙ e))
            (v.waiting_no_access a.old r a.known (sub r mr) (sym a.id ∙ e));
    waiting_project = λ u r mu mr e.
        let a = origin mu in
        a.project ∙ v.waiting_project a.old r a.known (sub r mr) (sym a.id ∙ e);
    audited = λ u mu.
        let a = origin mu in
        subst IsAudited (sym a.now) (changed_audit (p a.old) a.old (v.audited a.old a.known));
  }
