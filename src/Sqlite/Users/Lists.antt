-- ===== src/Sqlite/Users/Lists.antt =====
-- internal/repository/sqlite/user.go: the counts, the series and the lists.
use Prim.Native.String.{◌++◌ as append}
use waitinglist.Prelude.{
  ℕ, zero, suc, ◌-◌, ◌*◌, ◌/◌, String, Bool, true, false, ◌&&◌, ◌||◌, Option, none, some, List, [],
  ◌∷◌, leb, ltb, ◌==◌, if◌then◌else◌, keep, length,
}
use waitinglist.Prelude.Int.{ℤ, pos, negsuc}
use waitinglist.Prelude.Order.{order_by}
use waitinglist.Prelude.Text.{str_eq}
use waitinglist.Model.{Time, UserEntity, DayCount}
use waitinglist.Model.Clock.{day, whole_seconds}
use waitinglist.Store.{WaitingRow}
use waitinglist.Store.Monad.{M, pure, ◌>>=◌, ◌>>◌, driver, get_db, time_now, sql_now}
use waitinglist.Sqlite.Rows.{limit_rows, offset_rows, like, text_le}

abbrev pub in_project : String → String → Bool
in_project slug s = str_eq slug "" || str_eq s slug

-- `CountByAccess`: on the waiting list, and with access; the empty slug means all projects.
unfoldable pub count_by_access : String → M (ℕ × ℕ)
unfolding driver
count_by_access slug = do
  driver
  db ← get_db
  pure (
    length (keep (λ (r : WaitingRow). in_project slug r.project_slug) db.waiting_list),
    length
        (keep (λ (u : UserEntity). u.has_access && in_project slug u.project_slug) db.user_entity),
  )

-- the clamping of `days` to [1, 365]
abbrev pub clamp_days : ℤ → ℕ
clamp_days (negsuc _) = 1
clamp_days (pos n) = if ltb n 1 then 1 else if ltb 365 n then 365 else n

-- the number of signups of a day among the rows of the query
abbrev pub count_on : ℕ → List UserEntity → ℕ
count_on d rows = length (keep (λ (u : UserEntity). u.created_at / day == d) rows)

-- `for i := days - 1; i >= 0; i--`, with the day `i` days ago
unfoldable pub day_series : ℕ → ℕ → List UserEntity → List DayCount
day_series zero today rows = []
day_series (suc i) today rows =
    record { day = today - i; count = count_on (today - i) rows } ∷ day_series i today rows

-- `EnlistmentsByDay`: the clock is read by the statement and again by the loop.
unfoldable pub enlistments_by_day : String → ℤ → M (List DayCount)
unfolding day_series driver
enlistments_by_day slug days = do
  driver
  now ← sql_now
  db ← get_db
  let cutoff = now - clamp_days days * day
  let rows =
      keep (λ (u : UserEntity). in_project slug u.project_slug && leb cutoff u.created_at)
        db.user_entity
  today ← time_now
  pure (day_series (clamp_days days) (today / day) rows)

-- ORDER BY access_granted_at IS NULL, access_granted_at DESC, email ASC
unfoldable pub granted_before : Option Time → Option Time → Bool → Bool
granted_before none none by_email = by_email
granted_before none (some b) by_email = false
granted_before (some a) none by_email = true
granted_before (some a) (some b) by_email = ltb b a || (a == b && by_email)

unfoldable pub latest_first : UserEntity → UserEntity → Bool
unfolding granted_before
latest_first u v = granted_before u.access_granted_at v.access_granted_at (text_le u.email v.email)

-- `(? = '' OR email LIKE '%' || ? || '%')`
abbrev pub matches_email : String → String → Bool
matches_email email_like email =
    str_eq email_like "" || like (append "%" (append email_like "%")) email

abbrev pub is_listed : String → String → UserEntity → Bool
is_listed slug email_like u =
    u.has_access && in_project slug u.project_slug && matches_email email_like u.email

-- `ListWithAccess`
unfoldable pub list_with_access : String → String → ℤ → ℤ → M (List UserEntity)
unfolding driver
list_with_access slug email_like limit offset = do
  driver
  db ← get_db
  let rows = order_by latest_first (keep (is_listed slug email_like) db.user_entity)
  pure (limit_rows limit (offset_rows offset rows))

-- `ListAllWithAccess`
unfoldable pub list_all_with_access : String → M (List UserEntity)
unfolding driver
list_all_with_access slug = do
  driver
  db ← get_db
  let rows = keep (λ (u : UserEntity). u.has_access && str_eq u.project_slug slug) db.user_entity
  pure (order_by latest_first rows)

-- `access_granted_at > ?`, which NULL does not pass
abbrev pub is_after : Option Time → Time → Bool
is_after none t = false
is_after (some at) t = ltb t at

-- ORDER BY access_granted_at ASC; NULL comes first
grant_le : Option Time → Option Time → Bool
grant_le none _ = true
grant_le (some a) none = false
grant_le (some a) (some b) = leb a b

pub granted_earlier : UserEntity → UserEntity → Bool
unfolding grant_le
granted_earlier u v = grant_le u.access_granted_at v.access_granted_at

-- `GetGrantedSince`: the bound is written in whole seconds.
unfoldable pub get_granted_since : String → Time → M (List UserEntity)
unfolding driver
get_granted_since slug since = do
  driver
  db ← get_db
  let asked = λ (u : UserEntity).
      str_eq u.project_slug slug && is_after u.access_granted_at (whole_seconds since)
  pure (order_by granted_earlier (keep asked db.user_entity))
