-- ===== src/Sqlite/Users/Series.antt =====
-- `EnlistmentsByDay`: the series of days.
use waitinglist.Prelude.{
  ℕ, zero, suc, ◌+◌, ◌-◌, ◌≤◌, ◌/◌, ◌≡◌, refl, sym, Bool, ◌&&◌, List, [], ◌∷◌, arith, length, keep,
  leb, String, subst, ◌*◌,
}
use waitinglist.Prelude.Int.{ℤ, pos, negsuc}
use waitinglist.Model.{Time, Result, ok, err, DayCount, UserEntity}
use waitinglist.Store.{Db, World}
use waitinglist.Store.Keeps.{driver-db, driver-clock, driver-ticks}
use waitinglist.Store.Monad.{◌>>=◌, proceed, driver, get_db, sql_now, time_now, pure}
use waitinglist.Model.Clock.{day, whole_seconds}
use waitinglist.Sqlite.Users.Lists.{
  clamp_days, count_on, day_series, in_project, enlistments_by_day,
}

-- the sum of the counts
abbrev pub total : List DayCount → ℕ
total [] = 0
total (c ∷ cs) = c.count + total cs

-- The rows of the last `n` days that `today` ends.
abbrev pub is_within_days : ℕ → ℕ → UserEntity → Bool
is_within_days n today u =
    leb (today + 1) (u.created_at / day + n) && leb (u.created_at / day) today

clamp_days-range : (days : ℤ) → (1 ≤ clamp_days days) × (clamp_days days ≤ 365)
clamp_days-range (pos n) = (ground arith, ground arith)
clamp_days-range (negsuc n) = (omega arith, omega arith)

-- A row of the oldest day, or of one of the days behind it.
count_split :
    (n today : ℕ) (rows : List UserEntity)
    → n ≤ today
    → length (keep (is_within_days (suc n) today) rows)
      ≡ count_on (today - n) rows + length (keep (is_within_days n today) rows)
count_split n today [] h = refl
count_split n today (u ∷ rows) h = grind (arith, count_split n today rows h)

none_within : (today : ℕ) (rows : List UserEntity) → length (keep (is_within_days 0 today) rows) ≡ 0
none_within today [] = refl
none_within today (u ∷ rows) = ground (arith, none_within today rows)

-- The series has one entry for each of the `n` days up to today, and its counts add up to the number
-- of rows from those days: no sign-up is lost or counted twice.
pub day_series-total :
    (n today : ℕ) (rows : List UserEntity)
    → n ≤ today + 1
    → (length (day_series n today rows) ≡ n)
      × (total (day_series n today rows) ≡ length (keep (is_within_days n today) rows))
unfolding day_series
day_series-total zero today rows h = (refl, sym (none_within today rows))
day_series-total (suc n) today rows h =
    let later = day_series-total n today rows (omega (arith, h)) in
    (omega (arith, later.0), omega (arith, later.1, count_split n today rows (omega (arith, h))))

-- The rows that the query counts.
abbrev pub counted : String → ℤ → Time → List UserEntity → List UserEntity
counted slug days now = keep (λ (u : UserEntity).
    in_project slug u.project_slug && leb (now - clamp_days days * day) u.created_at)

-- The series by the tables, the clock, and the number of its readings before.
abbrev pub IsSeries : String → ℤ → Db → (ℕ → Time) → ℕ → Result (List DayCount) → Type 0
IsSeries slug days db clock ticks (err _) = Unit
IsSeries slug days db clock ticks (ok series) =
    (1 ≤ length series)
    × (length series ≤ 365)
    × (length series ≡ clamp_days days)
    × (total series
        ≡ length (
            keep (is_within_days (clamp_days days) (clock (ticks + 1) / day))
              (counted slug days (whole_seconds (clock ticks)) db.user_entity)))

module _ (slug : String) (days : ℤ) where
  series-IsSeries :
      (today : ℕ) (rows : List UserEntity)
      → 365 ≤ today
      → let s = day_series (clamp_days days) today rows in
        (1 ≤ length s)
        × (length s ≤ 365)
        × (length s ≡ clamp_days days)
        × (total s ≡ length (keep (is_within_days (clamp_days days) today) rows))
  series-IsSeries today rows late =
      let range = clamp_days-range days in
      let t = day_series-total (clamp_days days) today rows (omega (arith, range.1, late)) in
      (omega (arith, range.0, t.0), omega (arith, range.1, t.0), t.0, t.1)

  read-IsSeries :
      (r : Result (Unit {0})) (w : World)
      → 365 ≤ w.clock (w.ticks + 1) / day
      → IsSeries slug days w.db w.clock w.ticks
          (proceed r
            (λ _. sql_now >>= λ now. get_db >>= λ db. time_now >>= λ today.
              pure
                (day_series (clamp_days days) (today / day) (counted slug days now db.user_entity)))
            w).0
  unfolding ◌>>=◌
  read-IsSeries (err _) w late = tt
  read-IsSeries (ok _) w late =
      series-IsSeries (w.clock (w.ticks + 1) / day)
        (counted slug days (whole_seconds (w.clock w.ticks)) w.user_entity) late

  -- Where `EnlistmentsByDay` succeeds, with the clock a year or more after the zero time, its series
  -- has as many days as were asked for, brought into 1 to 365, and its counts add up to the sign-ups
  -- of the project that the query counts and that are from those days: none is lost or counted twice.
  pub enlistments_by_day-IsSeries :
      (w : World)
      → 365 ≤ w.clock (w.ticks + 1) / day
      → IsSeries slug days w.db w.clock w.ticks (enlistments_by_day slug days w).0
  unfolding enlistments_by_day ◌>>=◌
  enlistments_by_day-IsSeries w late =
      let d = (driver w).1 in
      let r = (enlistments_by_day slug days w).0 in
      subst (λ db. IsSeries slug days db w.clock w.ticks r) (driver-db w)
        (subst (λ c. IsSeries slug days d.db c w.ticks r) (driver-clock w)
          (subst (λ t. IsSeries slug days d.db d.clock t r) (driver-ticks w)
            (read-IsSeries (driver w).0 d (
              subst (λ c. 365 ≤ c (d.ticks + 1) / day) (sym (driver-clock w))
                (subst (λ t. 365 ≤ w.clock (t + 1) / day) (sym (driver-ticks w)) late)))))
