-- ===== src/Migrator.antt =====
-- backend/src/db/migrator.ts: the migrations, each applied once.
pub mod Migrations
pub mod Versions
pub mod Applied
pub mod Prefix
pub mod Again
pub mod Runs
mod Tests
use event_relay.Base.{
  ℕ, zero, suc, ◌+◌, Bool, true, false, if◌then◌else◌, Option, none, some, List, [], ◌∷◌, ◌++◌, map,
  Text,
}
use event_relay.Store.{
  World, Database, Catalog, Statement, has_text, run_sql, Result, ok, thrown, M, ◌>>=◌, ◌>>◌, pure,
  call, execute, with_transaction,
}
use Migrations.{Migration, migrations}

-- A statement that may fail on what it finds: it changes the tables, or it throws.
abbrev pub settle_statement :
    {A : Type 0} → (A → Database → Database) → World → Option A → Result (Unit {0}) × World
settle_statement change w none = (thrown, w)
settle_statement change w (some a) = (ok tt, record w { db = change a w.db })

-- `client.query(migration.sql)`: all the statements in one call.
unfoldable pub run_text : List Statement → M (Unit {0})
run_text sql =
    call (λ w. settle_statement (λ c db. record db { catalog = c }) w (run_sql sql w.db.catalog))

-- `CREATE TABLE IF NOT EXISTS schema_migrations`.
abbrev pub create_if_missing : Option (List (Text × Text)) → Option (List (Text × Text))
create_if_missing none = some []
create_if_missing (some rows) = some rows

-- `INSERT INTO schema_migrations`: the version is the primary key.
unfoldable pub insert_row : Migration → Option (List (Text × Text)) → Option (List (Text × Text))
insert_row m none = none
insert_row m (some rows) =
    if has_text m.version (map (λ (r : Text × Text). r.0) rows)
    then none
    else some (rows ++ (m.version, m.name) ∷ [])

unfoldable pub record_version : Migration → M (Unit {0})
unfolding insert_row
record_version m = call (λ w.
    settle_statement (λ rows db. record db { schema_migrations = some rows }) w
      (insert_row m w.db.schema_migrations))

abbrev pub versions_of : World → Option (List (Text × Text)) → Result (List Text) × World
versions_of w none = (thrown, w)
versions_of w (some rows) = (ok (map (λ (r : Text × Text). r.0) rows), w)

-- `SELECT version FROM schema_migrations`: it throws if there is no such table.
unfoldable pub read_versions : M (List Text)
read_versions = call (λ w. versions_of w w.db.schema_migrations)

unfoldable pub apply_migration : Migration → M (Unit {0})
unfolding run_text record_version insert_row
apply_migration m = with_transaction (do run_text m.sql; record_version m)

-- What one round adds to `appliedCount`.
abbrev pub apply_unless : Bool → Migration → M ℕ
apply_unless true m = pure 0
apply_unless false m = do apply_migration m; pure 1

-- The loop, with `appliedCount` so far.
unfoldable pub apply_pending : List Text → List Migration → ℕ → M ℕ
unfolding apply_migration
apply_pending applied [] n = pure n
apply_pending applied (m ∷ ms) n = do
  one ← apply_unless (has_text m.version applied) m
  apply_pending applied ms (n + one)

unfoldable pub run_migrations : M ℕ
unfolding read_versions apply_pending
run_migrations = do
  with_transaction
      (execute (λ db. record db { schema_migrations = create_if_missing db.schema_migrations }))
  applied ← read_versions
  apply_pending applied migrations 0
