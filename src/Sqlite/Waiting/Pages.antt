-- ===== src/Sqlite/Waiting/Pages.antt =====
-- `GetWithOffsetLimit`: which entries are handed out, and in which order.
use waitinglist.Prelude.{
  ◌≡◌, refl, sym, subst, ℕ, ◌+◌, ◌-◌, ◌*◌, ◌≤◌, ◌<◌, ◌⊎◌, inl, inr, true, String, Option, none,
  some, List, [], ◌∷◌, Bool-cases, leb, arith,
}
use mathlib.Core.Option.{some-injective}
use waitinglist.Prelude.Int.{ℤ, pos, negsuc}
use waitinglist.Prelude.Reordered.{Reordered-refl}
use waitinglist.Prelude.Selected.{Decides, IsAnswered, order_by-IsAnswered}
use waitinglist.Prelude.Text.{str_eq, str_eq_sound, str_eq_refl}
use waitinglist.Model.{Time, Result, ok, err, WaitingListEntry}
use waitinglist.Model.Clock.{hour, day}
use waitinglist.Store.{Db, WaitingRow, World}
use waitinglist.Store.Keeps.{driver-db}
use waitinglist.Store.Monad.{◌>>=◌, M, pure, proceed, driver, get_db}
use waitinglist.Sqlite.Waiting.{
  weighted_instant, weighted_created_at, weighted_earlier, project_rows, scan_entry, scanned,
  scan_entries, get_with_offset_limit, or_default, entry_of, since_year_zero, after_year_zero,
}
use waitinglist.Sqlite.Rows.{limit_rows, offset_rows}
use waitinglist.Sqlite.Waiting.Weights.{
  WeighsBefore, weighted_earlier-IsPreorder, weighted_earlier-WeighsBefore,
}

-- The weighted time of an entry: the time of creation less the hours of its weight, or the zero time for
-- an instant of the year 0.
abbrev pub IsWeightedTime : ℤ → ℕ → Time → Type 0
IsWeightedTime (pos n) a t =
    (t + n * hour ≡ a) ⊎ ((a < n * hour) × (n * hour ≤ a + 366 * day) × (t ≡ 0))
IsWeightedTime (negsuc _) a t = ⊥

-- An entry has the columns of its row.
pub record IsEntryOf (r : WaitingRow) (e : WaitingListEntry) : Type 0 where
  pub id : e.id ≡ r.id
  pub user_id : e.user_id ≡ r.user_id
  pub project_slug : e.project_slug ≡ r.project_slug
  pub created_at : e.created_at ≡ r.created_at
  pub weighted : IsWeightedTime r.weight r.created_at e.weighted_created_at

-- row by row
abbrev pub AreEntries : List WaitingRow → List WaitingListEntry → Type 0
AreEntries [] [] = Unit
AreEntries [] (e ∷ es) = ⊥
AreEntries (r ∷ rows) [] = ⊥
AreEntries (r ∷ rows) (e ∷ es) = IsEntryOf r e × AreEntries rows es

abbrev AnswersRows : List WaitingRow → Result (List WaitingListEntry) → Type 0
AnswersRows rows (ok es) = AreEntries rows es
AnswersRows rows (err _) = Unit

weighted-time :
    (v : ℤ) (a : ℕ) (t : Time)
    → weighted_created_at
        (record { id = ""; user_id = ""; created_at = a; weight = v; project_slug = "" })
      ≡ some t
    → IsWeightedTime v a t
unfolding weighted_created_at weighted_instant since_year_zero after_year_zero
weighted-time (pos n) a t h = elim (Bool-cases (leb (n * hour) (a + 366 * day))) [
  | inl early ↦
      let e : a + 366 * day - n * hour - 366 * day ≡ t = some-injective _ _ (ground arith) in
      ground arith
  | inr late ↦ absurd (ground arith)
]
weighted-time (negsuc n) a t h = absurd (ground arith)

entry_of-IsEntryOf :
    (r : WaitingRow) (o : Option Time) (e : WaitingListEntry)
    → weighted_created_at r ≡ o
    → entry_of r o ≡ some e
    → IsEntryOf r e
unfolding entry_of weighted_created_at
entry_of-IsEntryOf r none e w h = absurd (cc)
entry_of-IsEntryOf r (some t) e w h = subst (IsEntryOf r) (some-injective _ _ h) (record {
  id = refl;
  user_id = refl;
  project_slug = refl;
  created_at = refl;
  weighted = weighted-time r.weight r.created_at t w;
})

pure_cons-AnswersRows :
    (r : WaitingRow) (rows : List WaitingRow) (e : WaitingListEntry)
    (rest : Result (List WaitingListEntry)) (w : World)
    → IsEntryOf r e
    → AnswersRows rows rest
    → AnswersRows (r ∷ rows) (proceed rest (λ es. pure (e ∷ es)) w).0
unfolding pure
pure_cons-AnswersRows r rows e (ok es) w h k = (h, k)
pure_cons-AnswersRows r rows e (err _) w h k = tt

scanned-AnswersRows :
    (r : WaitingRow) (rows : List WaitingRow) (o : Option WaitingListEntry)
    (later : M (List WaitingListEntry)) (w : World)
    → scan_entry r ≡ o
    → AnswersRows rows (later w).0
    → AnswersRows (r ∷ rows) (scanned o later w).0
unfolding scanned scan_entry ◌>>=◌
scanned-AnswersRows r rows none later w h k = tt
scanned-AnswersRows r rows (some e) later w h k =
    pure_cons-AnswersRows r rows e (later w).0 (later w).1
      (entry_of-IsEntryOf r (weighted_created_at r) e refl h) k

scan_entries-AnswersRows :
    (rows : List WaitingRow) (w : World) → AnswersRows rows (scan_entries rows w).0
unfolding scan_entries pure
scan_entries-AnswersRows [] w = tt
scan_entries-AnswersRows (r ∷ rows) w =
    scanned-AnswersRows r rows (scan_entry r) (scan_entries rows) w refl
      (scan_entries-AnswersRows rows w)

pub is_of_project-Decides :
    (slug : String)
    → Decides (λ (r : WaitingRow). str_eq r.project_slug slug) (λ r. r.project_slug ≡ slug)
is_of_project-Decides slug = record {
  sound = λ r t. str_eq_sound r.project_slug slug t;
  complete = λ r f same. absurd (
      let t : str_eq r.project_slug slug ≡ true =
        subst (λ s. str_eq s slug ≡ true) (sym same) (str_eq_refl slug) in
      cc);
}

-- The entries are a page of rows of the table, row by row: of just those of the project, sorted by their
-- weighted time.
abbrev pub IsPage : Db → String → Option ℤ → Option ℤ → Result (List WaitingListEntry) → Type 0
IsPage db slug offset limit (err _) = Unit
IsPage db slug offset limit (ok es) =
    (rows : List WaitingRow) × IsAnswered (λ (r : WaitingRow). r.project_slug ≡ slug) WeighsBefore
      db.waiting_list rows
    × AreEntries
        (limit_rows (or_default (pos 2147483647) limit)
          (offset_rows (or_default (pos 0) offset) rows))
        es

project_rows-IsAnswered :
    (slug : String) (rows : List WaitingRow)
    → IsAnswered
        (λ (r : WaitingRow). r.project_slug ≡ slug)
        WeighsBefore
        rows
        (project_rows slug rows)
unfolding project_rows
project_rows-IsAnswered slug rows =
    order_by-IsAnswered (λ (r : WaitingRow). str_eq r.project_slug slug) weighted_earlier
      (Reordered-refl rows) (is_of_project-Decides slug) weighted_earlier-IsPreorder
      weighted_earlier-WeighsBefore

module _ (slug : String) (offset limit : Option ℤ) where
  abbrev page_of : Db → List WaitingRow
  page_of db =
      limit_rows (or_default (pos 2147483647) limit)
        (offset_rows (or_default (pos 0) offset) (project_rows slug db.waiting_list))

  answered-IsPage :
      (db : Db) (r : Result (List WaitingListEntry))
      → AnswersRows (page_of db) r
      → IsPage db slug offset limit r
  answered-IsPage db (ok es) h =
      (project_rows slug db.waiting_list, project_rows-IsAnswered slug db.waiting_list, h)
  answered-IsPage db (err _) h = tt

  read-IsPage :
      (r : Result (Unit {0})) (w : World)
      → IsPage w.db slug offset limit
          (proceed r (λ _. get_db >>= λ db. scan_entries (page_of db)) w).0
  unfolding ◌>>=◌
  read-IsPage (err _) w = tt
  read-IsPage (ok _) w =
      answered-IsPage w.db (scan_entries (page_of w.db) w).0
        (scan_entries-AnswersRows (page_of w.db) w)

  -- Where `GetWithOffsetLimit` succeeds its entries are, row by row and column by column, the page from
  -- OFFSET on of at most LIMIT of the project's rows, all of these taken and sorted by the time of
  -- creation less the hours of their weight.
  pub get_with_offset_limit-IsPage :
      (w : World) → IsPage w.db slug offset limit (get_with_offset_limit slug offset limit w).0
  unfolding get_with_offset_limit ◌>>=◌
  get_with_offset_limit-IsPage w =
      subst (λ db. IsPage db slug offset limit (get_with_offset_limit slug offset limit w).0)
        (driver-db w) (read-IsPage (driver w).0 (driver w).1)
