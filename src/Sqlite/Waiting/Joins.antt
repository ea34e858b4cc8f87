-- ===== src/Sqlite/Waiting/Joins.antt =====
-- internal/repository/sqlite/waitinglist.go: the lists that join the users.
use waitinglist.Prelude.{
  String, Bool, true, false, ◌&&◌, ◌||◌, Option, none, some, List, [], ◌∷◌, ◌++◌, leb, ltb, ◌==◌,
  keep, ℕ,
}
use waitinglist.Prelude.Int.{ℤ}
use waitinglist.Prelude.Order.{order_by}
use waitinglist.Prelude.Text.{str_eq}
use waitinglist.Model.{Time, failed, UserEntity, WaitingListAdminRow}
use waitinglist.Model.Clock.{whole_seconds}
use waitinglist.Store.{WaitingRow}
use waitinglist.Store.Monad.{M, pure, raise, ◌>>=◌, ◌>>◌, driver, get_db}
use waitinglist.Sqlite.Rows.{limit_rows, offset_rows, text_le}
use waitinglist.Sqlite.Users.{has_id}
use waitinglist.Sqlite.Users.Lists.{in_project, matches_email}
use waitinglist.Sqlite.Waiting.{weighted_created_at, weighted_instant}

pub record Joined : Type 0 where
  pub row : WaitingRow
  pub user : UserEntity

pair_with : WaitingRow → List UserEntity → List Joined
pair_with r [] = []
pair_with r (u ∷ us) = record { row = r; user = u } ∷ pair_with r us

-- waiting_list wl JOIN user_entity ue ON ue.id = wl.user_id
unfoldable pub join_users : List UserEntity → List WaitingRow → List Joined
unfolding pair_with
join_users users [] = []
join_users users (r ∷ rows) = pair_with r (keep (has_id r.user_id) users) ++ join_users users rows

admin_row_of : Joined → Option Time → Option WaitingListAdminRow
admin_row_of j none = none
admin_row_of j (some t) = some (record {
  entry_id = j.row.id;
  project_slug = j.row.project_slug;
  user_id = j.row.user_id;
  email = j.user.email;
  firstname = j.user.firstname;
  lastname = j.user.lastname;
  weight = j.row.weight;
  created_at = j.row.created_at;
  weighted_created_at = t;
})

unfoldable pub admin_scanned :
    Option WaitingListAdminRow → M (List WaitingListAdminRow) → M (List WaitingListAdminRow)
admin_scanned none later = raise failed
admin_scanned (some e) later = do rest ← later; pure (e ∷ rest)

-- `scanWaitingListAdminRow`, for each row
unfoldable pub scan_admin_rows : List Joined → M (List WaitingListAdminRow)
unfolding admin_scanned admin_row_of weighted_created_at
scan_admin_rows [] = pure []
scan_admin_rows (j ∷ rows) =
    admin_scanned (admin_row_of j (weighted_created_at j.row)) (scan_admin_rows rows)

abbrev pub enlisted_earlier : Joined → Joined → Bool
enlisted_earlier a b = leb a.row.created_at b.row.created_at

-- `GetEnlistedSince`
unfoldable pub get_enlisted_since : String → Time → M (List WaitingListAdminRow)
unfolding scan_admin_rows join_users driver
get_enlisted_since slug since = do
  driver
  db ← get_db
  let asked =
      λ (j : Joined). str_eq j.row.project_slug slug && ltb (whole_seconds since) j.row.created_at
  scan_admin_rows
      (order_by enlisted_earlier (keep asked (join_users db.user_entity db.waiting_list)))

joined_le : Option ℕ → Option ℕ → Bool → Bool
joined_le none none by_email = by_email
joined_le none (some b) by_email = true
joined_le (some a) none by_email = false
joined_le (some a) (some b) by_email = ltb a b || (a == b && by_email)

-- ORDER BY wl.weighted_created_at ASC, ue.email ASC
unfoldable pub joined_earlier : Joined → Joined → Bool
unfolding joined_le weighted_instant
joined_earlier a b =
    joined_le (weighted_instant a.row) (weighted_instant b.row) (text_le a.user.email b.user.email)

-- `ListAllJoined`
unfoldable pub list_all_joined : String → M (List WaitingListAdminRow)
unfolding scan_admin_rows join_users joined_earlier driver
list_all_joined slug = do
  driver
  db ← get_db
  let asked = λ (j : Joined). str_eq j.row.project_slug slug
  scan_admin_rows (order_by joined_earlier (keep asked (join_users db.user_entity db.waiting_list)))

-- `ListJoined`
unfoldable pub list_joined : String → String → ℤ → ℤ → M (List WaitingListAdminRow)
unfolding scan_admin_rows join_users joined_earlier driver
list_joined slug email_like limit offset = do
  driver
  db ← get_db
  let asked =
      λ (j : Joined). in_project slug j.row.project_slug && matches_email email_like j.user.email
  let rows = order_by joined_earlier (keep asked (join_users db.user_entity db.waiting_list))
  scan_admin_rows (limit_rows limit (offset_rows offset rows))
