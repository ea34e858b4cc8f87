-- ===== src/Sqlite/Waiting/Reads.antt =====
-- The methods of the waiting list repository that only read, and `GetLastSuccess`.
use waitinglist.Prelude.{
  ◌≡◌, refl, keep, keep-In, true, In-take, In-drop, In-keep, String, Option, none, some, List, [],
  ◌∷◌, In, there, ap, not-In-nil, ◌∙◌, In-cons, inl, subst, here, sym, inr,
}
use mathlib.Core.Option.{some-injective}
use waitinglist.Prelude.Int.{ℤ, pos, negsuc}
use waitinglist.Prelude.Text.{str_eq}
use waitinglist.Prelude.Order.{In-order_by}
use waitinglist.Model.{Time, Result, ok, err, WaitingListEntry, WaitingListAdminRow}
use waitinglist.Store.{Db, WaitingRow, World}
use waitinglist.Store.Monad.{◌>>=◌, driver, get_db, M, pure, proceed}
use waitinglist.Sqlite.Rows.{limit_rows, offset_rows}
use waitinglist.Store.Keeps.{driver-db, Keeps, keeps_rules}
use waitinglist.Sqlite.Waiting.{
  scan_entry, scan_entries, scanned, get_with_offset_limit, get_all, weighted_created_at, entry_of,
  project_rows, weighted_earlier, or_default,
}
use waitinglist.Sqlite.Waiting.Joins.{
  Joined, scan_admin_rows, admin_scanned, get_enlisted_since, list_all_joined, list_joined,
}
use waitinglist.Sqlite.Scheduler.{get_last_success}
use waitinglist.Repository.Read.{Read, AllRead, Read-mono, rows_of, is_of_project}

module _ {P : Db → Type 0} where
  scanned-Keeps :
      (o : Option WaitingListEntry) (later : M (List WaitingListEntry))
      → Keeps P later
      → Keeps P (scanned o later)
  unfolding scanned
  scanned-Keeps none later k = search keeps_rules
  scanned-Keeps (some e) later k = search keeps_rules

  scan_entries-Keeps : (rows : List WaitingRow) → Keeps P (scan_entries rows)
  unfolding scan_entries
  scan_entries-Keeps [] = search keeps_rules
  scan_entries-Keeps (r ∷ rows) = scanned-Keeps (scan_entry r) _ (scan_entries-Keeps rows)

  pub get_with_offset_limit-Keeps :
      (slug : String) (offset limit : Option ℤ) → Keeps P (get_with_offset_limit slug offset limit)
  unfolding get_with_offset_limit
  get_with_offset_limit-Keeps slug offset limit = search (keeps_rules, scan_entries-Keeps)

  pub get_all-Keeps : (slug : String) → Keeps P (get_all slug)
  unfolding get_all
  get_all-Keeps slug = get_with_offset_limit-Keeps slug none none

  admin_scanned-Keeps :
      (o : Option WaitingListAdminRow) (later : M (List WaitingListAdminRow))
      → Keeps P later
      → Keeps P (admin_scanned o later)
  unfolding admin_scanned
  admin_scanned-Keeps none later k = search keeps_rules
  admin_scanned-Keeps (some e) later k = search keeps_rules

  scan_admin_rows-Keeps : (rows : List Joined) → Keeps P (scan_admin_rows rows)
  unfolding scan_admin_rows
  scan_admin_rows-Keeps [] = search keeps_rules
  scan_admin_rows-Keeps (j ∷ rows) = admin_scanned-Keeps _ _ (scan_admin_rows-Keeps rows)

  pub get_enlisted_since-Keeps :
      (slug : String) (since : Time) → Keeps P (get_enlisted_since slug since)
  unfolding get_enlisted_since
  get_enlisted_since-Keeps slug since = search (keeps_rules, scan_admin_rows-Keeps)

  pub list_all_joined-Keeps : (slug : String) → Keeps P (list_all_joined slug)
  unfolding list_all_joined
  list_all_joined-Keeps slug = search (keeps_rules, scan_admin_rows-Keeps)

  pub list_joined-Keeps :
      (slug email_like : String) (limit offset : ℤ)
      → Keeps P (list_joined slug email_like limit offset)
  unfolding list_joined
  list_joined-Keeps slug email_like limit offset = search (keeps_rules, scan_admin_rows-Keeps)

  pub get_last_success-Keeps : (slug key : String) → Keeps P (get_last_success slug key)
  unfolding get_last_success
  get_last_success-Keeps slug key = search keeps_rules

entry_of-Read :
    {rows : List WaitingRow} (r : WaitingRow) (o : Option Time) (e : WaitingListEntry)
    → In r rows
    → weighted_created_at r ≡ o
    → entry_of r o ≡ some e
    → Read weighted_created_at rows e
unfolding entry_of
entry_of-Read r none e m w h = absurd (cc)
entry_of-Read r (some t) e m w h =
    let same = some-injective _ _ h in
    record {
      row = r;
      known = m;
      id = ap (λ (x : WaitingListEntry). x.id) same;
      user_id = ap (λ (x : WaitingListEntry). x.user_id) same;
      project_slug = ap (λ (x : WaitingListEntry). x.project_slug) same;
      weighted_time = w ∙ ap (λ (x : WaitingListEntry). some x.weighted_created_at) same;
    }

Read-there :
    {x : WaitingRow} {rows : List WaitingRow} {e : WaitingListEntry}
    → Read weighted_created_at rows e
    → Read weighted_created_at (x ∷ rows) e
Read-there r = record {
  row = r.row;
  known = there r.known;
  id = r.id;
  user_id = r.user_id;
  project_slug = r.project_slug;
  weighted_time = r.weighted_time;
}

pure_cons-AllRead :
    {rows : List WaitingRow} (e : WaitingListEntry) (r : Result (List WaitingListEntry)) (w : World)
    → Read weighted_created_at rows e
    → AllRead weighted_created_at rows r
    → AllRead weighted_created_at rows (proceed r (λ rest. pure (e ∷ rest)) w).0
unfolding pure
pure_cons-AllRead e (err _) w h k = tt
pure_cons-AllRead e (ok es) w h k = λ x m. elim (In-cons m) [
  | inl same ↦ subst (Read weighted_created_at _) (sym same) h
  | inr later ↦ k x later
]

AllRead-there :
    (x : WaitingRow) (rows : List WaitingRow) (r : Result (List WaitingListEntry))
    → AllRead weighted_created_at rows r
    → AllRead weighted_created_at (x ∷ rows) r
AllRead-there x rows (ok es) h = λ e m. Read-there (h e m)
AllRead-there x rows (err _) h = tt

scanned-AllRead :
    (rows : List WaitingRow) (r : WaitingRow) (o : Option WaitingListEntry)
    (later : M (List WaitingListEntry)) (w : World)
    → scan_entry r ≡ o
    → AllRead weighted_created_at rows (later w).0
    → AllRead weighted_created_at (r ∷ rows) (scanned o later w).0
unfolding scanned scan_entry ◌>>=◌
scanned-AllRead rows r none later w h k = tt
scanned-AllRead rows r (some e) later w h k =
    pure_cons-AllRead e (later w).0 (later w).1
      (entry_of-Read r (weighted_created_at r) e (here refl) refl h)
      (AllRead-there r rows (later w).0 k)

-- The scan of rows that succeeds gives entries of those rows.
pub scan_entries-AllRead :
    (rows : List WaitingRow) (w : World) → AllRead weighted_created_at rows (scan_entries rows w).0
unfolding scan_entries pure
scan_entries-AllRead [] w = λ e m. absurd (not-In-nil m)
scan_entries-AllRead (r ∷ rows) w =
    scanned-AllRead rows r (scan_entry r) (scan_entries rows) w refl (scan_entries-AllRead rows w)

AllRead-mono :
    (rows more : List WaitingRow) (r : Result (List WaitingListEntry))
    → ((r : WaitingRow) → In r rows → In r more)
    → AllRead weighted_created_at rows r
    → AllRead weighted_created_at more r
AllRead-mono rows more (ok es) sub h = λ e m. Read-mono sub (h e m)
AllRead-mono rows more (err _) sub h = tt

pub In-limit :
    {r : WaitingRow} (n : ℤ) (rows : List WaitingRow) → In r (limit_rows n rows) → In r rows
In-limit (pos n) rows m = In-take n rows m
In-limit (negsuc n) rows m = m

pub In-offset :
    {r : WaitingRow} (n : ℤ) (rows : List WaitingRow) → In r (offset_rows n rows) → In r rows
In-offset (pos n) rows m = In-drop n rows m
In-offset (negsuc n) rows m = m

-- A row of the project is a row of the table, of that project.
pub In-project_rows :
    {r : WaitingRow} (slug : String) (rows : List WaitingRow)
    → In r (project_rows slug rows)
    → In r rows × (str_eq r.project_slug slug ≡ true)
unfolding project_rows
In-project_rows slug rows m =
    In-keep (λ (r : WaitingRow). str_eq r.project_slug slug) rows
      (In-order_by weighted_earlier (keep (λ (r : WaitingRow). str_eq r.project_slug slug) rows) m)

read_page :
    (slug : String) (offset limit : Option ℤ) (r : Result (Unit {0})) (w : World)
    → AllRead weighted_created_at
        (project_rows slug w.db.waiting_list)
        (proceed r
          (λ _. get_db >>= λ db. scan_entries (
            limit_rows
              (or_default (pos 2147483647) limit)
              (offset_rows (or_default (pos 0) offset) (project_rows slug db.waiting_list))))
          w).0
unfolding ◌>>=◌
read_page slug offset limit (err _) w = tt
read_page slug offset limit (ok _) w =
    let rows = project_rows slug w.db.waiting_list in
    let rest = offset_rows (or_default (pos 0) offset) rows in
    let page = limit_rows (or_default (pos 2147483647) limit) rest in
    AllRead-mono page rows (scan_entries page w).0
      (λ r m.
        In-offset (or_default (pos 0) offset) rows
          (In-limit (or_default (pos 2147483647) limit) rest m))
      (scan_entries-AllRead page w)

page-AllRead :
    (slug : String) (offset limit : Option ℤ) (w : World)
    → AllRead weighted_created_at
        (project_rows slug w.db.waiting_list)
        (get_with_offset_limit slug offset limit w).0
unfolding get_with_offset_limit ◌>>=◌
page-AllRead slug offset limit w =
    subst
      (λ db.
        AllRead weighted_created_at (project_rows slug db.waiting_list)
          (get_with_offset_limit slug offset limit w).0)
      (driver-db w) (read_page slug offset limit (driver w).0 (driver w).1)

-- `GetWithOffsetLimit` gives entries of the project's rows.
pub get_with_offset_limit-AllRead :
    (slug : String) (offset limit : Option ℤ) (w : World)
    → AllRead weighted_created_at
        (rows_of slug w.db.waiting_list)
        (get_with_offset_limit slug offset limit w).0
get_with_offset_limit-AllRead slug offset limit w =
    let rows = w.db.waiting_list in
    AllRead-mono (project_rows slug rows) (rows_of slug rows)
      (get_with_offset_limit slug offset limit w).0
      (λ r m. let k = In-project_rows slug rows m in keep-In (is_of_project slug) rows k.0 k.1)
      (page-AllRead slug offset limit w)
