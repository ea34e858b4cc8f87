-- ===== src/Repository/Closed.antt =====
-- The removal of an entry and the revocation of a user keep tables valid with their keys.
use waitinglist.Prelude.{not, String, In, In-keep, refl}
use waitinglist.Model.{Time}
use waitinglist.Store.{Db, WaitingRow}
use waitinglist.Sqlite.Users.{has_id, revoke_row}
use waitinglist.Sqlite.Waiting.{has_entry_id}
use waitinglist.Invariant.Tables.{delete_waiting-IsValid}
use waitinglist.Invariant.Methods.{with_revoked-IsValid}
use waitinglist.Repository.Keys.{KeyReader, HasKeys-update, Valid}
use waitinglist.Repository.Contract.{without_entry, with_revoked}

module _ (key : KeyReader) (db : Db) (valid : Valid key db) where
  pub without_entry-Valid : (k : String) → Valid key (without_entry k db)
  without_entry-Valid k =
      let sub : (r : WaitingRow) → In r (without_entry k db).waiting_list → In r db.waiting_list =
        λ r m. (In-keep (λ r. not (has_entry_id k r)) db.waiting_list m).0 in
      (
        delete_waiting-IsValid valid.0 _ sub,
        record { user = valid.1.user; entry = λ r m. valid.1.entry r (sub r m) },
      )

  pub with_revoked-Valid :
      (k by reason : String) (now : Time) → Valid key (with_revoked k now by reason db)
  with_revoked-Valid k by reason now = (
    with_revoked-IsValid k by reason now db valid.0,
    HasKeys-update key (has_id k) (revoke_row now by reason) db.waiting_list (λ u. refl) (λ r m. m)
        valid.1,
  )
