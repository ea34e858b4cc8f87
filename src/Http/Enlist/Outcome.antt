-- ===== src/Http/Enlist/Outcome.antt =====
-- `handleAdd`: what it may leave behind, by the tables before.
use waitinglist.Prelude.{◌≡◌, ◌≢◌, String, false, In, ◌++◌, ◌⊎◌, ◌∷◌, []}
use waitinglist.Model.{UserEntity, WaitingListEntry}
use waitinglist.Store.{Db, WaitingRow}
use waitinglist.Http.Types.{Response, added, write_json}
use waitinglist.Repository.{Repository}
use waitinglist.Repository.Keys.{Valid}
use waitinglist.Repository.Contract.{Contract}

-- The user of that address is in the tables, has no access, and has a row of the list.
pub record IsWaiting (column : String → String) (slug email user_id entry_id : String) (db : Db)
    : Type 0 where
  pub user : UserEntity
  pub known : In user db.user_entity
  pub same : user.id ≡ user_id
  pub project : user.project_slug ≡ slug
  pub address : column user.email ≡ column email
  pub no_access : user.has_access ≡ false
  pub waiting :
      (r : WaitingRow) × In r db.waiting_list
      × (r.id ≡ entry_id)
      × (r.user_id ≡ user_id)
      × (r.project_slug ≡ slug)

-- The tables before, with a row of the list behind the others.
abbrev pub with_row : Db → WaitingRow → Db
with_row before r = record before { waiting_list = before.waiting_list ++ r ∷ [] }

-- Nothing has changed but for the new row, and a new user if there was none, both of the project.
abbrev pub IsExtended : String → Db → Db → Type 0
IsExtended slug before db =
    (r : WaitingRow) × (r.project_slug ≡ slug)
    × ((db ≡ with_row before r)
        ⊎ ((u : UserEntity) × (u.project_slug ≡ slug)
            × (db ≡ with_row (record before { user_entity = before.user_entity ++ u ∷ [] }) r)))

-- The tables after a sign-up: as they were, or with the new rows.
abbrev pub Extends : String → Db → Db → Type 0
Extends slug before db = (db ≡ before) ⊎ IsExtended slug before db

module _ ⦃repo : Repository⦄ ⦃c : Contract repo⦄ where
  -- A response and the tables behind it, by the tables before.
  pub data AddOutcome (before : Db) (slug email : String) (r : Response) (db : Db) : Type 0 where
    enlisted :
        (u : UserEntity) (e : WaitingListEntry)
        → r ≡ write_json 201 (added u e)
        → Valid c.key db
        → IsWaiting c.column slug email u.id e.id db
        → IsExtended slug before db
        → AddOutcome before slug email r db
    unchanged : r.status ≢ 201 → db ≡ before → AddOutcome before slug email r db
