-- ===== src/Repository/Keys.antt =====
-- As which keys a database reads the texts of identifiers, and that its rows hold keys.
use waitinglist.Prelude.{
  not-In-nil, ◌≡◌, refl, subst, ap, ◌∙◌, Bool, true, false, if◌then◌else◌, String, Option, none,
  some, List, [], ◌∷◌, In, here, there,
}
use waitinglist.Model.{UserEntity}
use waitinglist.Store.{Db, WaitingRow}
use waitinglist.Sqlite.Rows.{update_where, In-update_where}
use waitinglist.Invariant.{IsValid, empty_db}

-- `none` is a text that is no identifier of the database.
abbrev pub KeyReader : Type 0
KeyReader = String → Option String

abbrev pub read_more : Option String → Option (List String) → Option (List String)
read_more none rest = none
read_more (some k) none = none
read_more (some k) (some ks) = some (k ∷ ks)

abbrev pub read_all : KeyReader → List String → Option (List String)
read_all key [] = some []
read_all key (t ∷ ts) = read_more (key t) (read_all key ts)

if-id :
    (f : UserEntity → UserEntity)
    → ((u : UserEntity) → (f u).id ≡ u.id)
    → (b : Bool) (u : UserEntity) → (if b then f u else u).id ≡ u.id
if-id f same true u = same u
if-id f same false u = refl

module _ (key : KeyReader) where
  -- the identifiers of the rows are keys
  pub record HasKeys (db : Db) : Type 0 where
    pub user : (u : UserEntity) → In u db.user_entity → key u.id ≡ some u.id
    pub entry : (r : WaitingRow) → In r db.waiting_list → key r.id ≡ some r.id

  abbrev pub Valid : Db → Type 0
  Valid db = IsValid db × HasKeys db

  -- Keys are read as themselves.
  pub read_all-keys :
      (ks : List String) → ((k : String) → In k ks → key k ≡ some k) → read_all key ks ≡ some ks
  read_all-keys [] h = refl
  read_all-keys (k ∷ ks) h = rw (h k (here refl), read_all-keys ks (λ x m. h x (there m))) refl

  -- Neither an UPDATE that leaves the identifiers alone nor a DELETE makes a key of something else.
  pub HasKeys-update :
      {db : Db} (p : UserEntity → Bool) (f : UserEntity → UserEntity) (rows : List WaitingRow)
      → ((u : UserEntity) → (f u).id ≡ u.id)
      → ((r : WaitingRow) → In r rows → In r db.waiting_list)
      → HasKeys db
      → HasKeys (record db { user_entity = update_where p f db.user_entity; waiting_list = rows })
  HasKeys-update {db = db} p f rows same sub h = record {
    user = λ u m.
        let b = In-update_where p f db.user_entity m in
        let e : u.id ≡ b.0.id = ap (λ (x : UserEntity). x.id) b.2 ∙ if-id f same (p b.0) b.0 in
        rw e (h.user b.0 b.1);
    entry = λ r m. h.entry r (sub r m);
  }

  -- Only users and list hold keys.
  pub HasKeys-of :
      {db db' : Db}
      → db'.user_entity ≡ db.user_entity
      → db'.waiting_list ≡ db.waiting_list
      → HasKeys db
      → HasKeys db'
  HasKeys-of users rows h = record {
    user = λ u m. h.user u (subst (In u) users m);
    entry = λ r m. h.entry r (subst (In r) rows m);
  }

  pub HasKeys-empty : HasKeys empty_db
  HasKeys-empty = record {
    user = λ u m. absurd (not-In-nil m);
    entry = λ r m. absurd (not-In-nil m);
  }
