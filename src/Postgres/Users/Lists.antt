-- ===== src/Postgres/Users/Lists.antt =====
-- internal/repository/postgres/user.go: the counts, the series and the lists.
pub mod Filter
use Prim.Native.String.{◌++◌ as append}
use waitinglist.Prelude.{
  ℕ, ◌-◌, ◌*◌, ◌/◌, String, Bool, true, false, ◌&&◌, ◌||◌, Option, none, some, List, leb, ltb, ◌==◌,
  keep, length, if◌then◌else◌,
}
use waitinglist.Prelude.Int.{ℤ, pos, negsuc}
use waitinglist.Prelude.Order.{order_by}
use waitinglist.Prelude.Text.{str_eq}
use waitinglist.Model.{Time, failed, UserEntity, DayCount}
use waitinglist.Model.Clock.{day}
use waitinglist.Store.{WaitingRow}
use waitinglist.Store.Monad.{M, pure, raise, ◌>>=◌, ◌>>◌, driver, get_db, time_now}
use waitinglist.Sqlite.Rows.{limit_rows, offset_rows}
use waitinglist.Sqlite.Users.Lists.{in_project, clamp_days, day_series, is_after}
use waitinglist.Postgres.Server.{Server, tokens, ilike}

-- LIMIT and OFFSET: a negative one is an error.
abbrev pub is_negative : ℤ → Bool
is_negative (pos _) = false
is_negative (negsuc _) = true

unfoldable pub paged {ℓ} : {A : Type ℓ} → ℤ → ℤ → List A → List A
paged limit offset rows = limit_rows limit (offset_rows offset rows)

unfoldable pub check_page : ℤ → ℤ → M (Unit {0})
check_page limit offset = if is_negative limit || is_negative offset then raise failed else pure tt

-- ORDER BY access_granted_at ASC; NULL comes last
grant_le : Option Time → Option Time → Bool
grant_le _ none = true
grant_le none (some b) = false
grant_le (some a) (some b) = leb a b

pub granted_earlier : UserEntity → UserEntity → Bool
unfolding grant_le
granted_earlier u v = grant_le u.access_granted_at v.access_granted_at

-- `CountByAccess`: on the waiting list, and with access; the empty slug means all projects.
unfoldable pub count_by_access : String → M (ℕ × ℕ)
unfolding driver
count_by_access slug = do
  driver
  db ← get_db
  let waiting = keep (λ (r : WaitingRow). in_project slug r.project_slug) db.waiting_list
  let let_in =
      keep (λ (u : UserEntity). u.has_access && in_project slug u.project_slug) db.user_entity
  pure (length waiting, length let_in)

-- `EnlistmentsByDay`: NOW() bounds the rows, and the loop reads the clock.
unfoldable pub enlistments_by_day : Time → String → ℤ → M (List DayCount)
unfolding day_series driver
enlistments_by_day now slug days = do
  driver
  db ← get_db
  let cutoff = now - clamp_days days * day
  let rows =
      keep (λ (u : UserEntity). in_project slug u.project_slug && leb cutoff u.created_at)
        db.user_entity
  today ← time_now
  pure (day_series (clamp_days days) (today / day) rows)

-- ORDER BY access_granted_at DESC NULLS LAST, email ASC
granted_before : Option Time → Option Time → Bool → Bool
granted_before none none by_email = by_email
granted_before none (some b) by_email = false
granted_before (some a) none by_email = true
granted_before (some a) (some b) by_email = ltb b a || (a == b && by_email)

module _ (s : Server) where
  pub latest_first : UserEntity → UserEntity → Bool
  unfolding granted_before
  latest_first u v =
      granted_before u.access_granted_at v.access_granted_at (s.collate u.email v.email)

  -- `($1 = '' OR email ILIKE '%' || $1 || '%')`
  pub matches_email : String → String → Bool
  unfolding ilike tokens
  matches_email email_like email =
      str_eq email_like "" || ilike s.lower (tokens (append "%" (append email_like "%"))) email

  abbrev pub is_listed : String → String → UserEntity → Bool
  is_listed slug email_like u =
      u.has_access && in_project slug u.project_slug && matches_email email_like u.email

  -- `ListWithAccess`
  unfoldable pub list_with_access : String → String → ℤ → ℤ → M (List UserEntity)
  unfolding driver check_page paged
  list_with_access slug email_like limit offset = do
    driver
    check_page limit offset
    db ← get_db
    let rows = keep (is_listed slug email_like) (s.scan_users db.user_entity)
    pure (paged limit offset (order_by latest_first rows))

  abbrev pub is_let_in : String → UserEntity → Bool
  is_let_in slug u = u.has_access && str_eq u.project_slug slug

  -- `ListAllWithAccess`
  unfoldable pub list_all_with_access : String → M (List UserEntity)
  unfolding driver
  list_all_with_access slug = do
    driver
    db ← get_db
    pure (order_by latest_first (keep (is_let_in slug) (s.scan_users db.user_entity)))

  abbrev pub is_granted_since : String → Time → UserEntity → Bool
  is_granted_since slug since u =
      str_eq u.project_slug slug && is_after u.access_granted_at (s.micros since)

  -- `GetGrantedSince`
  unfoldable pub get_granted_since : String → Time → M (List UserEntity)
  unfolding driver
  get_granted_since slug since = do
    driver
    db ← get_db
    pure (
        order_by granted_earlier (keep (is_granted_since slug since) (s.scan_users db.user_entity)))
