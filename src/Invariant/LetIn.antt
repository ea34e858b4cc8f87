-- ===== src/Invariant/LetIn.antt =====
-- What it means that a user was let in, and the two ways there: off the list first, as the admin's
-- handler does it, or access first, as the scheduler does it.
use waitinglist.Prelude.{
  ◌≡◌, refl, sym, ◌∙◌, subst, arith, String, Bool, true, false, not, List, [], ◌∷◌, keep, In,
  In-keep, any-In, map-In, eq_iff, if◌then◌else◌, ap,
}
use waitinglist.Prelude.Text.{str_eq, str_eq_sound}
use waitinglist.Model.{Time, UserEntity}
use waitinglist.Store.{Db, WaitingRow}
use waitinglist.Sqlite.Rows.{update_where}
use waitinglist.Sqlite.Users.{valid_grant_source, grant_row}
use waitinglist.Sqlite.Waiting.{is_of_user}
use waitinglist.Invariant.{IsValid, some}
use waitinglist.Invariant.Tables.{delete_waiting-IsValid}
use waitinglist.Invariant.Update.{update_users-IsValid}
use waitinglist.Invariant.Grant.{listed, Granted, Deleted, grant_row-IsAudited}

abbrev pub IsOffList : String → Db → Type 0
IsOffList id db = (r : WaitingRow) → In r db.waiting_list → str_eq r.user_id id ≡ false

-- The user is in the tables, has access from that source, and does not wait.
pub record LetIn (source id : String) (db : Db) : Type 0 where
  pub user : UserEntity
  pub known : In user db.user_entity
  pub same : user.id ≡ id
  pub access : user.has_access ≡ true
  pub granted_by : user.access_granted_by ≡ some source
  pub off_list : IsOffList id db

-- The rows that a DELETE leaves do not match.
pub not_matched :
    (p : WaitingRow → Bool) (rows : List WaitingRow) {r : WaitingRow}
    → In r (keep (λ r. not (p r)) rows)
    → p r ≡ false
not_matched p rows m = let k = (In-keep (λ r. not (p r)) rows m).1 in ground arith

-- The tables without the user's row of the list.
abbrev pub without : String → Db → Db
without id db = record db { waiting_list = keep (λ r. not (is_of_user id r)) db.waiting_list }

abbrev pub IsRemoved : Db → String → Db → Type 0
IsRemoved before id db = IsValid db × IsOffList id db × (db ≡ without id before)

pub Deleted-IsRemoved :
    (before : Db) (id : String) (db : Db)
    → Deleted (λ d. IsValid d × (d ≡ before)) (is_of_user id) db
    → IsRemoved before id db
Deleted-IsRemoved before id db d = subst (IsRemoved before id) (sym d.result) (
  delete_waiting-IsValid d.held.0 _
      (λ r m. (In-keep (λ r. not (is_of_user id r)) d.before.waiting_list m).0),
  λ r m. not_matched (is_of_user id) d.before.waiting_list m,
  ap (without id) d.held.1,
)

-- The user that an UPDATE matched has access after it.
pub granted_user :
    (p : UserEntity → Bool) (now : Time) (source : String) (u : UserEntity) (us : List UserEntity)
    → In u us
    → p u ≡ true
    → In (grant_row now source u) (update_where p (grant_row now source) us)
granted_user p now source u us m t =
    let f = λ (a : UserEntity). if p a then grant_row now source a else a in
    let e : f u ≡ grant_row now source u = rw t refl in
    subst (λ x. In x (update_where p (grant_row now source) us)) e (map-In f m)

only_id : (id : String) (u : UserEntity) → listed (id ∷ []) u ≡ true → u.id ≡ id
only_id id u t = sym (str_eq_sound id u.id (ground arith))

-- The tables before, with access for the user at that instant, and without the row of the list.
abbrev pub let_in_at : Db → String → String → Time → Db
let_in_at before source id now = record (without id before) {
  user_entity = update_where (listed (id ∷ [])) (grant_row now source) before.user_entity;
}

-- The tables are valid, the user is in, and nothing else has changed.
abbrev pub Admitted : Db → String → String → Db → Type 0
Admitted before source id db =
    IsValid db × LetIn source id db × ((now : Time) × (db ≡ let_in_at before source id now))

waits_not : (s t : String) → str_eq s t ≡ false → s ≡ t → ⊥
waits_not s t h e = ground (arith, eq_iff s t)

pub Granted-Admitted :
    (before : Db) (id source : String) (db : Db)
    → valid_grant_source source ≡ true
    → Granted (IsRemoved before id) (id ∷ []) source db
    → Admitted before source id db
Granted-Admitted before id source db valid g =
    let p = listed (id ∷ []) in
    let f = grant_row g.now source in
    let matched = any-In p g.before.user_entity g.matched in
    subst (Admitted before source id) (sym g.result) (
      update_users-IsValid g.held.0 p f g.before.waiting_list (λ r m. m) (λ u. refl) (λ u. refl)
          (λ u. refl) (λ u a. grant_row-IsAudited g.now source u valid a)
          (λ u r mu mr e t.
            absurd (waits_not r.user_id id (g.held.1 r mr) (sym e ∙ only_id id u t))),
      record {
        user = f matched.0;
        known = granted_user p g.now source matched.0 g.before.user_entity matched.1 matched.2;
        same = only_id id matched.0 matched.2;
        access = refl;
        granted_by = refl;
        off_list = g.held.1;
      },
      (g.now, ap (λ (x : Db). record x { user_entity = update_where p f x.user_entity }) g.held.2),
    )
