-- ===== src/Migrator/Tests.antt =====
-- backend/src/db/migrator.ts on tables that are new, and on those that the migrations have made.
use event_relay.Base.{◌≡◌, ℕ, refl, true, false, Option, some, none, [], ◌∷◌, length}
use event_relay.Store.{World, Catalog, ok}
use event_relay.Store.Tables.{run_sql}
use event_relay.Store.Atomic.{Ends}
use event_relay.Sample.{world, no_tables, database}
use event_relay.Migrator.Migrations.{migrations}
use event_relay.Migrator.{run_migrations}
use event_relay.Migrator.Applied.{run_all, Applied}
use event_relay.Migrator.Prefix.{Partly, run_migrations-Applied}
use event_relay.Migrator.Runs.{At, run_migrations_lem}

abbrev or_empty : Option Catalog → Catalog
or_empty none = no_tables
or_empty (some c) = c

-- The tables that the migrations make.
abbrev migrated : Catalog
migrated = or_empty (run_all migrations no_tables)

all_run : run_all migrations no_tables ≡ some migrated
unfolding run_sql
all_run = refl

five_tables : length migrated.tables ≡ 5
unfolding run_sql
five_tables = refl

run_migrations_lem_example : run_migrations world ≡ (ok 4, At world migrated migrations)
run_migrations_lem_example = run_migrations_lem [] migrations refl world refl refl migrated all_run

-- COMMIT of the second migration fails.
abbrev failing : World
failing = record world {
  faults =
      false ∷ false ∷ false ∷ false ∷ false ∷ false ∷ false ∷ false ∷ false ∷ false ∷ false ∷ false
      ∷ false ∷ true ∷ [];
}

run_migrations-Applied_example :
    Ends {A = ℕ}
      (λ n. λ v. (n ≡ 4) × Applied database migrations v.db)
      (λ v. Partly database [] migrations v.db)
      (run_migrations failing)
run_migrations-Applied_example =
    run_migrations-Applied database [] migrations refl failing (no_tables, refl, refl)
