-- ===== src/Sqlite/Scheduler/Stamps.antt =====
-- The two halves of the scheduler's state: what is written is what is read.
use waitinglist.Prelude.{
  ◌≡◌, refl, String, true, false, ◌&&◌, List, [], ◌∷◌, find_first, arith, eq_iff, Bool-cases, inl,
  inr, keep, not,
}
use waitinglist.Prelude.Text.{str_eq, str_eq_refl}
use waitinglist.Model.{Time}
use waitinglist.Store.{SchedulerRow}
use waitinglist.Sqlite.Scheduler.{has_key, value_or_zero, upsert}

abbrev pub stored : String → String → List SchedulerRow → Time
stored slug key rows = value_or_zero (find_first (has_key slug key) rows)

same_key :
    (slug key : String) (r : SchedulerRow) (now : Time)
    → has_key slug key r ≡ true
    → has_key slug key (record r { value = now }) ≡ true
same_key slug key r now h = h

-- `UpdateLastSuccess` and `GetLastSuccess` agree: after the upsert, a project's key reads as the
-- instant that was written, and every other project or key reads as before.
pub upsert-stored :
    (slug key : String) (now : Time) (rows : List SchedulerRow)
    → (stored slug key (upsert slug key now rows) ≡ now)
      × ((s k : String)
          → (str_eq slug s && str_eq key k) ≡ false
          → stored s k (upsert slug key now rows) ≡ stored s k rows)
unfolding upsert
upsert-stored slug key now [] =
    (rw (str_eq_refl slug, str_eq_refl key) refl, λ s k other. rw other refl)
upsert-stored slug key now (r ∷ rows) = elim (Bool-cases (has_key slug key r)) [
  | inl hit ↦
      (grind arith, λ s k other. grind (arith, eq_iff r.project_slug slug, eq_iff r.key key))
  | inr miss ↦
      let later = upsert-stored slug key now rows in
      (grind (arith, later.0), λ s k other. grind (arith, later.1 s k other))
]

-- The stamp of a project is a row of its own.
pub upsert-others :
    (slug key : String) (now : Time) (rows : List SchedulerRow)
    → keep (λ (r : SchedulerRow). not (str_eq r.project_slug slug)) (upsert slug key now rows)
      ≡ keep (λ (r : SchedulerRow). not (str_eq r.project_slug slug)) rows
unfolding upsert
upsert-others slug key now [] = rw (str_eq_refl slug) refl
upsert-others slug key now (r ∷ rows) =
    let rest = upsert-others slug key now rows in
    elim (Bool-cases (str_eq r.project_slug slug)) [
      | inl own ↦ elim (Bool-cases (str_eq r.key key)) [
        | inl same ↦ rw (own, same) (rw own refl)
        | inr other ↦ rw (own, other) (rw own rest)
      ]
      | inr foreign ↦ rw (foreign, rest) (rw foreign refl)
    ]
