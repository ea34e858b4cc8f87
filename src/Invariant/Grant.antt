-- ===== src/Invariant/Grant.antt =====
-- `GrantAccessTx` and the deletions, as what they ensure: which rows they change, and to what.
use waitinglist.Prelude.{
  ◌≡◌, refl, subst, arith, String, Bool, true, false, not, List, [], ◌∷◌, any, keep, length, ◌==◌,
}
use mathlib.Core.Option.{some-injective}
use waitinglist.Model.{Time, UserEntity}
use waitinglist.Store.{Db, WaitingRow}
use waitinglist.Store.Keeps.{Keeps-driver, Keeps-sql_now}
use waitinglist.Store.Ensures.{
  Ensures, Ensures-bind, Ensures-kept, Ensures-pure, Ensures-raise, Ensures-if,
}
use waitinglist.Sqlite.Rows.{is_in, update_where}
use waitinglist.Sqlite.Users.{
  valid_grant_source, grant_row, update_users, grant_matched, grant_access_tx,
}
use waitinglist.Sqlite.Waiting.{is_of_user, delete_waiting, delete_by_ids_tx, delete_by_user_id_tx}
use waitinglist.Invariant.{IsAudited}

abbrev pub listed : List String → UserEntity → Bool
listed ids u = is_in ids u.id

-- The tables are those of `before`, with access granted to the users that are listed, one at least.
pub record Granted (P : Db → Type 0) (ids : List String) (source : String) (db : Db) : Type 0 where
  pub before : Db
  pub held : P before
  pub now : Time
  pub matched : any (listed ids) before.user_entity ≡ true
  pub result : db ≡ record before {
    user_entity = update_where (listed ids) (grant_row now source) before.user_entity;
  }

-- The tables are those of `before`, without the waiting rows that match.
pub record Deleted (P : Db → Type 0) (p : WaitingRow → Bool) (db : Db) : Type 0 where
  pub before : Db
  pub held : P before
  pub result : db ≡ record before { waiting_list = keep (λ r. not (p r)) before.waiting_list }

pub some_matched :
    {A : Type 0} (p : A → Bool) (xs : List A) → (length (keep p xs) == 0) ≡ false → any p xs ≡ true
some_matched p [] h = absurd (cc)
some_matched p (x ∷ xs) h = ground (arith, some_matched p xs)

module _ (P : Db → Type 0) (ids : List String) (source : String) where
  -- Granted, once it is known that the UPDATE matched something.
  abbrev pub Updated : Bool → Db → Type 0
  Updated none_matched db = (none_matched ≡ false) → Granted P ids source db

  pub update_users-Ensures :
      (now : Time)
      → Ensures P (update_users (listed ids) (grant_row now source)) (λ n. Updated (n == 0))
  unfolding update_users
  update_users-Ensures now = record {
    at = λ w h e. record {
      before = w.db;
      held = h;
      now = now;
      matched = some_matched (listed ids) w.user_entity e;
      result = refl;
    };
  }

  grant_matched-Ensures : Ensures P (grant_matched ids source) (λ _. Granted P ids source)
  unfolding grant_matched
  grant_matched-Ensures = Ensures-bind _ _ (Ensures-kept _ Keeps-driver) λ _.
      Ensures-bind _ _ (Ensures-kept _ Keeps-sql_now) λ now.
        Ensures-bind _ _ (update_users-Ensures now) λ n.
          Ensures-bind _ _ (Ensures-kept _ Keeps-driver) λ _.
            Ensures-if (n == 0) _ _ (λ _. Ensures-raise _)
              λ some_rows. Ensures-pure tt λ db h. h some_rows

pub grant_access_tx-Ensures :
    (P : Db → Type 0) (id : String) (ids : List String) (source : String)
    → valid_grant_source source ≡ true
    → Ensures P (grant_access_tx (id ∷ ids) source) (λ _. Granted P (id ∷ ids) source)
unfolding grant_access_tx
grant_access_tx-Ensures P id ids source valid = rw valid (grant_matched-Ensures P (id ∷ ids) source)

pub delete_waiting-Ensures :
    (P : Db → Type 0) (p : WaitingRow → Bool) → Ensures P (delete_waiting p) (λ _. Deleted P p)
unfolding delete_waiting
delete_waiting-Ensures P p = record {
  at = λ w h. record { before = w.db; held = h; result = refl };
}

pub delete_by_user_id_tx-Ensures :
    (P : Db → Type 0) (id : String)
    → Ensures P (delete_by_user_id_tx id) (λ _. Deleted P (is_of_user id))
unfolding delete_by_user_id_tx
delete_by_user_id_tx-Ensures P id =
    Ensures-bind _ _ (Ensures-kept _ Keeps-driver) λ _.
      Ensures-bind _ _ (delete_waiting-Ensures P (is_of_user id)) λ _. Ensures-pure tt λ db h. h

pub delete_by_ids_tx-Ensures :
    (P : Db → Type 0) (id : String) (ids : List String)
    → Ensures P (delete_by_ids_tx (id ∷ ids)) (λ _. Deleted P (λ r. is_in (id ∷ ids) r.id))
unfolding delete_by_ids_tx
delete_by_ids_tx-Ensures P id ids = Ensures-bind _ _ (Ensures-kept _ Keeps-driver) λ _.
    Ensures-bind _ _ (delete_waiting-Ensures P (λ r. is_in (id ∷ ids) r.id))
      λ _. Ensures-pure tt λ db h. h

-- A grant leaves the audit columns in order.
pub grant_row-IsAudited :
    (now : Time) (source : String) (u : UserEntity)
    → valid_grant_source source ≡ true
    → IsAudited u
    → IsAudited (grant_row now source u)
grant_row-IsAudited now source u valid a = record {
  revoke_pair = refl;
  source = λ s e. subst (λ t. valid_grant_source t ≡ true) (some-injective _ _ e) valid;
  dated = λ e. refl;
  attributed = λ e. refl;
  unrevoked = λ e. refl;
}
