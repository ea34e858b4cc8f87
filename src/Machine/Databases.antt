-- ===== src/Machine/Databases.antt =====
-- The program over PostgreSQL: requests and tasks one after the other, each at a NOW() of its own.
use waitinglist.Prelude.{◌≡◌, sym, subst, List, [], ◌∷◌}
use waitinglist.Model.{Time}
use waitinglist.Store.{World}
use waitinglist.Invariant.{IsValid-empty, empty_db}
use waitinglist.Repository.Keys.{HasKeys-empty, Valid}
use waitinglist.Repository.OverPostgres.{postgres, postgres_contract, postgres_contract-key}
use waitinglist.Postgres.Server.{Server, IsServer}
use waitinglist.Machine.{Event, perform, perform-Valid}

module _ (s : Server) where
  pub run_postgres : List (Event × (World → Time)) → World → World
  run_postgres [] w = w
  run_postgres ((e, now) ∷ later) w = run_postgres later (perform ⦃repo = postgres s now⦄ e w)

  run-Valid :
      (law : IsServer s) (events : List (Event × (World → Time))) (w : World)
      → Valid s.uuid w.db
      → Valid s.uuid (run_postgres events w).db
  unfolding run_postgres
  run-Valid law [] w v = v
  run-Valid law ((e, now) ∷ later) w v = run-Valid law later (perform ⦃repo = postgres s now⦄ e w) (
      subst (λ k. Valid k (perform ⦃repo = postgres s now⦄ e w).db)
        (postgres_contract-key s now law)
        (perform-Valid ⦃repo = postgres s now⦄ ⦃c = postgres_contract s now law⦄ e w
          (subst (λ k. Valid k w.db) (sym (postgres_contract-key s now law)) v)))

  -- Over a PostgreSQL server that scans each row once and reads canonical texts as themselves, from
  -- a fresh database on, whatever is requested and whichever tasks run, with the driver failing
  -- anywhere: the tables are valid, and every identifier of a row is the canonical text of a uuid.
  pub run_postgres-Valid :
      (law : IsServer s) (events : List (Event × (World → Time))) (w : World)
      → w.db ≡ empty_db
      → Valid s.uuid (run_postgres events w).db
  run_postgres-Valid law events w fresh =
      run-Valid law events w
        (subst (Valid s.uuid) (sym fresh) (IsValid-empty, HasKeys-empty s.uuid))
