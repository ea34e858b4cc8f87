-- ===== src/Postgres/Waiting/Joins.antt =====
-- internal/repository/postgres/waitinglist.go: the lists that join the users.
use waitinglist.Prelude.{String, Bool, ◌&&◌, ◌||◌, List, map, ltb, keep}
use waitinglist.Prelude.Int.{ℤ}
use waitinglist.Prelude.Order.{order_by}
use waitinglist.Prelude.Text.{str_eq}
use waitinglist.Model.{Time, WaitingListAdminRow}
use waitinglist.Store.{Db}
use waitinglist.Store.Monad.{M, pure, ◌>>=◌, ◌>>◌, driver, get_db}
use waitinglist.Sqlite.Users.Lists.{in_project}
use waitinglist.Sqlite.Waiting.Joins.{Joined, join_users, enlisted_earlier}
use waitinglist.Postgres.Server.{Server}
use waitinglist.Postgres.Users.Lists.{matches_email, check_page, paged}
use waitinglist.Postgres.Waiting.{weighted_created_at, weighted_instant, ltb_ℤ, not}

unfoldable pub admin_row_of : Joined → WaitingListAdminRow
unfolding weighted_created_at
admin_row_of j = record {
  entry_id = j.row.id;
  project_slug = j.row.project_slug;
  user_id = j.row.user_id;
  email = j.user.email;
  firstname = j.user.firstname;
  lastname = j.user.lastname;
  weight = j.row.weight;
  created_at = j.row.created_at;
  weighted_created_at = weighted_created_at j.row;
}

module _ (s : Server) where
  -- waiting_list wl JOIN user_entity ue ON ue.id = wl.user_id
  unfoldable pub joined : Db → List Joined
  unfolding join_users
  joined db = join_users (s.scan_users db.user_entity) (s.scan_waiting db.waiting_list)

  -- ORDER BY wl.weighted_created_at ASC, ue.email ASC
  unfoldable pub joined_earlier : Joined → Joined → Bool
  unfolding weighted_instant
  joined_earlier a b =
      let at = weighted_instant a.row in
      let bt = weighted_instant b.row in
      ltb_ℤ at bt || (not (ltb_ℤ bt at) && s.collate a.user.email b.user.email)

  abbrev pub is_enlisted_since : String → Time → Joined → Bool
  is_enlisted_since slug since j =
      str_eq j.row.project_slug slug && ltb (s.micros since) j.row.created_at

  -- `GetEnlistedSince`
  unfoldable pub get_enlisted_since : String → Time → M (List WaitingListAdminRow)
  unfolding joined driver admin_row_of
  get_enlisted_since slug since = do
    driver
    db ← get_db
    pure (
        map admin_row_of
          (order_by enlisted_earlier (keep (is_enlisted_since slug since) (joined db))))

  -- `ListAllJoined`
  unfoldable pub list_all_joined : String → M (List WaitingListAdminRow)
  unfolding joined joined_earlier driver admin_row_of
  list_all_joined slug = do
    driver
    db ← get_db
    let rows = keep (λ (j : Joined). str_eq j.row.project_slug slug) (joined db)
    pure (map admin_row_of (order_by joined_earlier rows))

  abbrev pub is_shown : String → String → Joined → Bool
  is_shown slug email_like j =
      in_project slug j.row.project_slug && matches_email s email_like j.user.email

  -- `ListJoined`
  unfoldable pub list_joined : String → String → ℤ → ℤ → M (List WaitingListAdminRow)
  unfolding joined joined_earlier driver check_page paged admin_row_of
  list_joined slug email_like limit offset = do
    driver
    check_page limit offset
    db ← get_db
    let rows = order_by joined_earlier (keep (is_shown slug email_like) (joined db))
    pure (map admin_row_of (paged limit offset rows))
