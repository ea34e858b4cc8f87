-- ===== src/Repository/OverPostgres.antt =====
-- The PostgreSQL repositories keep the same contract: a text is the key whose canonical text its uuid
-- has, and a column of addresses keeps what is left of a text in `varchar(255)`.
use waitinglist.Prelude.{◌≡◌, refl, some}
use waitinglist.Model.{Time}
use waitinglist.Store.{Db, World}
use waitinglist.Store.Monad.{M}
use waitinglist.Store.Keeps.{Keeps}
use waitinglist.Store.Ensures.{Ensures}
use waitinglist.Postgres.Server.{Server, IsServer}
use waitinglist.Postgres.Users
use waitinglist.Postgres.Users.Lists
use waitinglist.Postgres.Waiting
use waitinglist.Postgres.Waiting.{weighted_created_at}
use waitinglist.Postgres.Waiting.Joins
use waitinglist.Postgres.Scheduler
use waitinglist.Postgres.Reads
use waitinglist.Postgres.Answers
use waitinglist.Postgres.Creating
use waitinglist.Postgres.Creating.{stored_text}
use waitinglist.Postgres.Adding
use waitinglist.Postgres.Changing
use waitinglist.Repository.{Repository}
use waitinglist.Repository.Contract.{Contract, unchanged}

module _ {A : Type 0} (now : World → Time) where
  -- A method at the NOW() of its transaction.
  abbrev pub at_now : (Time → M A) → M A
  at_now m w = m (now w) w

  at_now-Keeps :
      {P : Db → Type 0} (m : Time → M A) → ((t : Time) → Keeps P (m t)) → Keeps P (at_now m)
  at_now-Keeps m k = record { at = λ w h. (k (now w)).at w h }

  at_now-Ensures :
      {P : Db → Type 0} {Q : A → Db → Type 0} (m : Time → M A)
      → ((t : Time) → Ensures P (m t) Q)
      → Ensures P (at_now m) Q
  at_now-Ensures m k = record { at = λ w h. (k (now w)).at w h }

-- `now` is NOW(), which may stay or pass from one method to the next.
module _ (s : Server) (now : World → Time) where
  abbrev pub postgres : Repository
  postgres = record {
    create_tx = λ user. at_now now (λ t. Users.create_tx s t user);
    get_by_email_tx = Users.get_by_email_tx s;
    get_user_info_by_emails = Users.get_user_info_by_emails s;
    grant_access_tx = λ ids source. at_now now (λ t. Users.grant_access_tx s t ids source);
    revoke_access_tx = λ id reason by. at_now now (λ t. Users.revoke_access_tx s t id reason by);
    get_by_id = Users.get_by_id s;
    get_by_ids = Users.get_by_ids s;
    count_by_access = Lists.count_by_access;
    enlistments_by_day = λ slug days. at_now now (λ t. Lists.enlistments_by_day t slug days);
    list_with_access = Lists.list_with_access s;
    list_all_with_access = Lists.list_all_with_access s;
    get_granted_since = Lists.get_granted_since s;
    add = λ slug user_id. at_now now (λ t. Waiting.add s t slug user_id);
    get_all = Waiting.get_all s;
    get_with_offset_limit = Waiting.get_with_offset_limit s;
    get_enlisted_since = Joins.get_enlisted_since s;
    list_all_joined = Joins.list_all_joined s;
    list_joined = Joins.list_joined s;
    delete_by_ids_tx = Waiting.delete_by_ids_tx s;
    delete_by_id_tx = Waiting.delete_by_id_tx s;
    delete_by_user_id_tx = Waiting.delete_by_user_id_tx s;
    get_last_success = Scheduler.get_last_success;
    update_last_success = λ slug name. at_now now (λ t. Scheduler.update_last_success t slug name);
  }

  pub postgres_contract : IsServer s → Contract postgres
  postgres_contract law = record {
    key = s.uuid;
    column = stored_text;
    weighted = λ r. some (weighted_created_at r);
    get_by_email_tx_reads =
        λ slug email. unchanged _ (λ P. Reads.get_by_email_tx-Keeps {P = P} s slug email);
    get_user_info_by_emails_reads =
        λ slug es. unchanged _ (λ P. Reads.get_user_info_by_emails-Keeps {P = P} s slug es);
    get_by_id_reads = λ id. unchanged _ (λ P. Reads.get_by_id-Keeps {P = P} s id);
    get_by_ids_reads = λ ids. unchanged _ (λ P. Reads.get_by_ids-Keeps {P = P} s ids);
    count_by_access_reads = λ slug. unchanged _ (λ P. Reads.count_by_access-Keeps {P = P} slug);
    enlistments_by_day_reads = λ slug days.
        unchanged _
          (λ P. at_now-Keeps now _ (λ t. Reads.enlistments_by_day-Keeps {P = P} t slug days));
    list_with_access_reads =
        λ slug e l o. unchanged _ (λ P. Reads.list_with_access-Keeps {P = P} s slug e l o);
    list_all_with_access_reads =
        λ slug. unchanged _ (λ P. Reads.list_all_with_access-Keeps {P = P} s slug);
    get_granted_since_reads =
        λ slug t. unchanged _ (λ P. Reads.get_granted_since-Keeps {P = P} s slug t);
    get_all_reads = λ slug. unchanged _ (λ P. Reads.get_all-Keeps {P = P} s slug);
    get_with_offset_limit_reads =
        λ slug o l. unchanged _ (λ P. Reads.get_with_offset_limit-Keeps {P = P} s slug o l);
    get_enlisted_since_reads =
        λ slug t. unchanged _ (λ P. Reads.get_enlisted_since-Keeps {P = P} s slug t);
    list_all_joined_reads = λ slug. unchanged _ (λ P. Reads.list_all_joined-Keeps {P = P} s slug);
    list_joined_reads =
        λ slug e l o. unchanged _ (λ P. Reads.list_joined-Keeps {P = P} s slug e l o);
    get_by_email_tx_answer = Answers.get_by_email_tx-IsAnswer s law;
    get_with_offset_limit_read = Answers.get_with_offset_limit-AllRead s law;
    get_last_success_read = Answers.get_last_success-LastRead;
    create_tx_keeps = λ user. at_now-Keeps now _ (λ t. Creating.create_tx-Keeps s law t user);
    create_tx_created = λ user w. Creating.create_tx-IsCreated s law (now w) user w;
    add_ensures = λ start v slug user_id same no_access project.
        at_now-Ensures now _
          (λ t. Adding.add-Ensures s start v slug user_id same no_access project law t);
    grant_access_tx_ensures = λ P id ids source valid.
        at_now-Ensures now _ (λ t. Changing.grant_access_tx-Ensures s t P id ids source valid);
    delete_by_user_id_tx_ensures = Changing.delete_by_user_id_tx-Ensures s;
    delete_by_ids_tx_ensures = Changing.delete_by_ids_tx-Ensures s;
    delete_by_id_tx_keeps = Changing.delete_by_id_tx-Keeps s;
    delete_by_id_tx_removed = Changing.delete_by_id_tx-Removed s;
    revoke_access_tx_keeps = λ P id reason by closed.
        at_now-Keeps now _ (λ t. Changing.revoke_access_tx-Keeps s t P id reason by closed);
    revoke_access_tx_ensures = λ before id reason by.
        at_now-Ensures now _ (λ t. Changing.revoke_access_tx-Ensures s t before id reason by);
    update_last_success_written =
        λ slug name w. Changing.update_last_success-Written (now w) slug name w;
  }

  pub postgres_contract-key : (law : IsServer s) → (postgres_contract law).key ≡ s.uuid
  unfolding postgres_contract
  postgres_contract-key law = refl
