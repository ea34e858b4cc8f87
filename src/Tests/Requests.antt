-- ===== src/Tests/Requests.antt =====
-- The theorems on requests at concrete inputs.
use waitinglist.Prelude.{
  ◌≡◌, ◌⊎◌, refl, String, Bool, true, false, Option, none, some, List, [], ◌∷◌, arith, ◌↔◌, In,
}
use waitinglist.Prelude.Int.{pos, ◌≤ℤ◌}
use waitinglist.Prelude.Text.{str_eq, trim_space, atoi}
use waitinglist.Store.{World}
use waitinglist.Invariant.{IsValid}
use waitinglist.Repository.OverSqlite.{sqlite, sqlite_contract, sqlite_contract-key, text_key}
use waitinglist.Http.Enlist.{handle_add, validate_waiting_list_request}
use waitinglist.Http.Enlist.Safety.{handle_add-outcome}
use waitinglist.Http.Enlist.Outcome.{AddOutcome}
use waitinglist.Http.Types.{Request}
use waitinglist.Http.Enlist.{handle_get_users_by_email}
use waitinglist.Http.Enlist.Asking.{IsInfoAnswer, handle_get_users_by_email-asks}
use waitinglist.Http.Enlist.Validation.{IsComplete, validate_waiting_list_request-IsComplete}
use waitinglist.Http.Admin.Params.{parse_int_query, value}
use waitinglist.Http.Admin.Params.Bounds.{parse_int_query-bounds}
use waitinglist.Http.Admin.Access.{handle_grant, handle_revoke, handle_delete_waitlist}
use waitinglist.Http.Admin.Access.Granting.{GrantOutcome, handle_grant-outcome}
use waitinglist.Http.Admin.Access.Revoking.{RevokedKey, handle_revoke-Revoked}
use waitinglist.Http.Admin.Access.Deleting.{RemovedKey, handle_delete_waitlist-outcome}
use waitinglist.Http.Auth.{basic_auth_middleware, unauthorized}
use waitinglist.Http.Auth.Guard.{Authorized, basic_auth_middleware-cases}
use waitinglist.Http.Tenant.{middleware, new_project_resolver}
use waitinglist.Http.Tenant.Routing.{Routed, middleware-Routed}
use waitinglist.Machine.{
  fresh, next, happens, add, perform, Reachable-IsValid, perform-reads, dashboard,
}
use waitinglist.Tests.Data.{
  acme, form, request, new_world, signed_up, signed_up-Valid, fresh-Valid, busy, admin,
  next_handler,
}

Reachable-IsValid_example : IsValid (perform (add (some acme) request) new_world).db
Reachable-IsValid_example =
    Reachable-IsValid text_key (perform (add (some acme) request) new_world) (
      next (fresh new_world refl)
        (happens sqlite sqlite_contract sqlite_contract-key (add (some acme) request)))

perform-reads_example : (perform (dashboard admin request) busy).db ≡ busy.db
perform-reads_example = perform-reads (dashboard admin request) busy refl

handle_add-outcome_example :
    AddOutcome new_world.db "acme" "ada@acme.test"
      (handle_add (some acme) request new_world).0
      (handle_add (some acme) request new_world).1.db
handle_add-outcome_example = handle_add-outcome acme request form new_world refl fresh-Valid

-- that sign-up succeeds
handle_add_status : (handle_add (some acme) request new_world).0.status ≡ 201
unfolding handle_add validate_waiting_list_request trim_space waitinglist.Prelude.Text.contains_code
    waitinglist.Store.Action.◌>>=◌ waitinglist.Store.Action.begin_tx
    waitinglist.Sqlite.Users.get_by_email_tx waitinglist.Store.Monad.◌>>=◌
    waitinglist.Sqlite.Users.create_tx waitinglist.Sqlite.Waiting.add
    waitinglist.Store.Action.commit
handle_add_status = refl

handle_grant-outcome_example :
    GrantOutcome signed_up.db
      (trim_space " u0 ")
      (handle_grant admin request signed_up).0
      (handle_grant admin request signed_up).1.db
handle_grant-outcome_example = handle_grant-outcome admin request signed_up signed_up-Valid.0

handle_revoke_status : (handle_revoke "root" request busy).0.status ≡ 200
unfolding handle_revoke trim_space waitinglist.Store.Action.◌>>=◌
    waitinglist.Sqlite.Users.revoke_access_tx waitinglist.Store.Monad.◌>>=◌
    waitinglist.Sqlite.Users.get_by_id
handle_revoke_status = refl

handle_revoke-Revoked_example :
    RevokedKey busy.db
      (trim_space " u0 ")
      "root"
      (trim_space " spam ")
      (handle_revoke "root" request busy).1.db
handle_revoke-Revoked_example =
    handle_revoke-Revoked "root" request " spam " busy refl handle_revoke_status

handle_delete_waitlist-outcome_example :
    ((handle_delete_waitlist request busy).0.status ≡ 204
      → RemovedKey busy.db (trim_space " u0 ") (handle_delete_waitlist request busy).1.db)
    × ((handle_delete_waitlist request busy).0.status ≡ 404
        → (handle_delete_waitlist request busy).1.db ≡ busy.db)
handle_delete_waitlist-outcome_example = handle_delete_waitlist-outcome request busy

middleware-Routed_example :
    Routed "X-Project-ID" "acme" [] (acme ∷ []) next_handler request new_world (
      middleware
        (new_project_resolver "X-Project-ID" "acme" [] (acme ∷ []))
        next_handler
        request
        new_world)
middleware-Routed_example =
    middleware-Routed "X-Project-ID" "acme" [] (acme ∷ []) next_handler request new_world

basic_auth_middleware-cases_example :
    let guarded = basic_auth_middleware str_eq "root" "secret" "admin" (λ _. next_handler none) in
    (Authorized str_eq "root" "secret" "admin" (λ _. next_handler none) (some ("root", "secret"))
      × (guarded request new_world ≡ next_handler none request new_world))
    ⊎ ((Authorized str_eq "root" "secret" "admin" (λ _. next_handler none) (some ("root", "secret"))
          → ⊥)
        × (guarded request new_world ≡ (unauthorized "admin", new_world)))
basic_auth_middleware-cases_example =
    basic_auth_middleware-cases str_eq "root" "secret" "admin" (λ _. next_handler none) request
      new_world

days_30 : parse_int_query request "days" (pos 90) (pos 1) (pos 365) ≡ value (pos 30)
unfolding parse_int_query trim_space atoi
days_30 = refl

parse_int_query-bounds_example :
    (pos 1 ≤ℤ pos 30)
    × (pos 30 ≤ℤ pos 365)
    × (((str_eq (trim_space "30") "" ≡ true) × (pos 30 ≡ pos 90))
        ⊎ (atoi (trim_space "30") ≡ some (pos 30)))
parse_int_query-bounds_example =
    parse_int_query-bounds request "days" (pos 90) (pos 1) (pos 365) (pos 30) (omega arith)
      (omega arith) days_30

validate_waiting_list_request-IsComplete_example :
    (validate_waiting_list_request form ≡ none) ↔ IsComplete form
validate_waiting_list_request-IsComplete_example = validate_waiting_list_request-IsComplete form

-- a query of two emails
abbrev asking : Request
asking = record request { query = λ _. " ada@acme.test" ∷ "bob@acme.test" ∷ [] }

handle_get_users_by_email-asks_example :
    IsInfoAnswer acme asking busy (handle_get_users_by_email (some acme) asking busy)
handle_get_users_by_email-asks_example = handle_get_users_by_email-asks acme asking busy
