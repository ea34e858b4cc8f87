-- ===== src/Repository/OverSqlite.antt =====
-- The SQLite repositories keep the contract: each law is a lemma on the method. A text is a key as it
-- is, and a column of text keeps all of it.
use waitinglist.Prelude.{◌≡◌, refl, String, Option, some, ◌∷◌, ◌==◌}
use waitinglist.Prelude.Text.{str_eq, trim_space}
use waitinglist.Model.{Time}
use waitinglist.Store.{Db, World}
use waitinglist.Store.Monad.{M, driver, ◌>>=◌}
use waitinglist.Store.Keeps.{
  Keeps, keeps_rules, Keeps-bind, Keeps-if, Keeps-raise, driver-db, Keeps-driver, Keeps-sql_now,
}
use waitinglist.Store.Ensures.{
  Ensures, Ensures-map, Ensures-bind, Ensures-kept, Ensures-pure, Ensures-raise, Ensures-if,
}
use waitinglist.Sqlite.Users
use waitinglist.Sqlite.Users.{revoke_matched, has_id, revoke_row, update_users}
use waitinglist.Sqlite.Users.Lists
use waitinglist.Sqlite.Users.Reads
use waitinglist.Sqlite.Waiting
use waitinglist.Sqlite.Waiting.{weighted_created_at, delete_by_id_tx, has_entry_id, delete_waiting}
use waitinglist.Sqlite.Waiting.Joins
use waitinglist.Sqlite.Waiting.Reads as WaitingReads
use waitinglist.Sqlite.Scheduler
use waitinglist.Sqlite.Scheduler.Success.{get_last_success-LastRead, update_last_success-Written}
use waitinglist.Invariant.{IsValid}
use waitinglist.Invariant.Methods
use waitinglist.Invariant.Grant.{
  grant_access_tx-Ensures, delete_by_user_id_tx-Ensures, delete_by_ids_tx-Ensures,
}
use waitinglist.Invariant.Revoke.{Revoked, update-Ensures}
use waitinglist.Invariant.Removal.{proceed-Removed, removal-Removed, driver-OnlyFails}
use waitinglist.Repository.{Repository}
use waitinglist.Repository.Keys.{HasKeys, Valid, read_all-keys}
use waitinglist.Repository.Contract.{Contract, unchanged, Removed, without_entry, with_revoked}

instance abbrev pub sqlite : Repository
sqlite = record {
  create_tx = Users.create_tx;
  get_by_email_tx = Users.get_by_email_tx;
  get_user_info_by_emails = Users.get_user_info_by_emails;
  grant_access_tx = Users.grant_access_tx;
  revoke_access_tx = Users.revoke_access_tx;
  get_by_id = Users.get_by_id;
  get_by_ids = Users.get_by_ids;
  count_by_access = Lists.count_by_access;
  enlistments_by_day = Lists.enlistments_by_day;
  list_with_access = Lists.list_with_access;
  list_all_with_access = Lists.list_all_with_access;
  get_granted_since = Lists.get_granted_since;
  add = Waiting.add;
  get_all = Waiting.get_all;
  get_with_offset_limit = Waiting.get_with_offset_limit;
  get_enlisted_since = Joins.get_enlisted_since;
  list_all_joined = Joins.list_all_joined;
  list_joined = Joins.list_joined;
  delete_by_ids_tx = Waiting.delete_by_ids_tx;
  delete_by_id_tx = Waiting.delete_by_id_tx;
  delete_by_user_id_tx = Waiting.delete_by_user_id_tx;
  get_last_success = Scheduler.get_last_success;
  update_last_success = Scheduler.update_last_success;
}

-- every text is a key
abbrev pub text_key : String → Option String
text_key t = some t

HasKeys-text : (db : Db) → HasKeys text_key db
HasKeys-text db = record { user = λ u m. refl; entry = λ r m. refl }

-- so a method that keeps the tables valid keeps them valid with keys
Keeps-text : {A : Type 0} (m : M A) → Keeps IsValid m → Keeps (Valid text_key) m
Keeps-text m k = record { at = λ w v. (k.at w v.0, HasKeys-text (m w).1.db) }

delete_by_id_tx-Removed :
    (id : String) (w : World) → Removed text_key w.db id (delete_by_id_tx id w)
unfolding delete_by_id_tx ◌>>=◌
delete_by_id_tx-Removed id w =
    proceed-Removed text_key w.db id (driver w).0 _ (driver w).1 (driver-OnlyFails w) λ _ answered.
      unfold ◌>>=◌ in removal-Removed text_key w.db id id refl (driver w).1 (driver-db w)

revoke_matched-Ensures :
    (before : Db) (id reason by : String)
    → Ensures (λ db. db ≡ before) (revoke_matched id reason by) (λ _. Revoked before id by reason)
unfolding revoke_matched
revoke_matched-Ensures before id reason by = Ensures-bind _ _ (Ensures-kept _ Keeps-driver) λ _.
    Ensures-bind _ _ (Ensures-kept _ Keeps-sql_now) λ now.
      Ensures-bind _ _ (update-Ensures before id by reason now) λ n.
        Ensures-bind _ _ (Ensures-kept _ Keeps-driver) λ _.
          Ensures-if (n == 0) _ _ (λ _. Ensures-raise _)
            λ some_rows. Ensures-pure tt λ db h. h some_rows

revoke_access_tx-Ensures :
    (before : Db) (id reason by : String)
    → Ensures
        (λ db. db ≡ before)
        (Users.revoke_access_tx id reason by)
        (λ _. Revoked before id by reason)
unfolding Users.revoke_access_tx
revoke_access_tx-Ensures before id reason by =
    Ensures-if (str_eq (trim_space reason) "") _ _ (λ _. Ensures-raise _)
      λ _. revoke_matched-Ensures before id reason by

-- Whatever the removal of an entry keeps is kept.
delete_by_id_tx-Keeps :
    (P : Db → Type 0) (id : String)
    → ((k : String) (db : Db) → text_key id ≡ some k → P db → P (without_entry k db))
    → Keeps P (delete_by_id_tx id)
unfolding delete_by_id_tx delete_waiting
delete_by_id_tx-Keeps P id closed =
    Keeps-bind _ _ Keeps-driver
      λ _. Keeps-bind _ _ (record { at = λ w h. closed id w.db refl h }) λ n. search keeps_rules

revoke_matched-Keeps :
    (P : Db → Type 0) (id reason by : String)
    → ((now : Time) (db : Db) → P db → P (with_revoked id now by reason db))
    → Keeps P (revoke_matched id reason by)
unfolding revoke_matched update_users
revoke_matched-Keeps P id reason by closed =
    let updates : (now : Time) → Keeps P (update_users (has_id id) (revoke_row now by reason)) =
      λ now. record { at = λ w h. closed now w.db h } in
    search (keeps_rules, updates) depth 9

-- Whatever the revocation of a user keeps is kept.
revoke_access_tx-Keeps :
    (P : Db → Type 0) (id reason by : String)
    → ((k : String) (now : Time) (db : Db)
        → text_key id ≡ some k
        → P db
        → P (with_revoked k now by reason db))
    → Keeps P (Users.revoke_access_tx id reason by)
unfolding Users.revoke_access_tx
revoke_access_tx-Keeps P id reason by closed =
    Keeps-if (str_eq (trim_space reason) "") _ _ (Keeps-raise _)
      (revoke_matched-Keeps P id reason by (λ now db h. closed id now db refl h))

instance pub sqlite_contract : Contract sqlite
sqlite_contract = record {
  key = text_key;
  column = λ t. t;
  weighted = weighted_created_at;
  get_by_email_tx_reads =
      λ slug email. unchanged _ (λ P. Reads.get_by_email_tx-Keeps {P = P} slug email);
  get_user_info_by_emails_reads =
      λ slug es. unchanged _ (λ P. Reads.get_user_info_by_emails-Keeps {P = P} slug es);
  get_by_id_reads = λ id. unchanged _ (λ P. Reads.get_by_id-Keeps {P = P} id);
  get_by_ids_reads = λ ids. unchanged _ (λ P. Reads.get_by_ids-Keeps {P = P} ids);
  count_by_access_reads = λ slug. unchanged _ (λ P. Reads.count_by_access-Keeps {P = P} slug);
  enlistments_by_day_reads =
      λ slug days. unchanged _ (λ P. Reads.enlistments_by_day-Keeps {P = P} slug days);
  list_with_access_reads =
      λ slug e l o. unchanged _ (λ P. Reads.list_with_access-Keeps {P = P} slug e l o);
  list_all_with_access_reads =
      λ slug. unchanged _ (λ P. Reads.list_all_with_access-Keeps {P = P} slug);
  get_granted_since_reads =
      λ slug t. unchanged _ (λ P. Reads.get_granted_since-Keeps {P = P} slug t);
  get_all_reads = λ slug. unchanged _ (λ P. WaitingReads.get_all-Keeps {P = P} slug);
  get_with_offset_limit_reads =
      λ slug o l. unchanged _ (λ P. WaitingReads.get_with_offset_limit-Keeps {P = P} slug o l);
  get_enlisted_since_reads =
      λ slug t. unchanged _ (λ P. WaitingReads.get_enlisted_since-Keeps {P = P} slug t);
  list_all_joined_reads =
      λ slug. unchanged _ (λ P. WaitingReads.list_all_joined-Keeps {P = P} slug);
  list_joined_reads =
      λ slug e l o. unchanged _ (λ P. WaitingReads.list_joined-Keeps {P = P} slug e l o);
  get_by_email_tx_answer = Reads.get_by_email_tx-IsAnswer;
  get_with_offset_limit_read = WaitingReads.get_with_offset_limit-AllRead;
  get_last_success_read = get_last_success-LastRead;
  create_tx_keeps = λ user. Keeps-text _ (Methods.create_tx-Keeps user);
  create_tx_created = Methods.create_tx-IsCreated;
  add_ensures = λ start v slug user_id same no_access project.
      Ensures-map (λ db h. (h.0.0, h.1, h.2)) (λ e db h. ((h.0, HasKeys-text db), h.1, h.2))
        (Methods.add-Ensures start v slug user_id same no_access project);
  grant_access_tx_ensures = λ P id ids source valid.
      Ensures-map (λ db h. h)
        (λ _ db h. (id ∷ ids, read_all-keys text_key (id ∷ ids) (λ k m. refl), h))
        (grant_access_tx-Ensures P id ids source valid);
  delete_by_user_id_tx_ensures =
      λ P id. Ensures-map (λ db h. h) (λ _ db h. (id, refl, h)) (delete_by_user_id_tx-Ensures P id);
  delete_by_ids_tx_ensures = λ P id ids.
      Ensures-map (λ db h. h)
        (λ _ db h. (id ∷ ids, read_all-keys text_key (id ∷ ids) (λ k m. refl), h))
        (delete_by_ids_tx-Ensures P id ids);
  delete_by_id_tx_keeps = delete_by_id_tx-Keeps;
  delete_by_id_tx_removed = delete_by_id_tx-Removed;
  revoke_access_tx_keeps = revoke_access_tx-Keeps;
  revoke_access_tx_ensures = λ before id reason by.
      Ensures-map (λ db h. h) (λ _ db h. (id, refl, h))
        (revoke_access_tx-Ensures before id reason by);
  update_last_success_written = update_last_success-Written;
}

pub sqlite_contract-key : sqlite_contract.key ≡ text_key
unfolding sqlite_contract
sqlite_contract-key = refl
