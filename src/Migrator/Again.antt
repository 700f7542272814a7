-- ===== src/Migrator/Again.antt =====
-- backend/src/db/migrator.ts: a run on tables that are up to date.
use mathlib.Core.Path.{subst}
use mathlib.Core.List.{append-nil}
use event_relay.Base.{◌≡◌, refl, ap, Option, none, some, List, [], ◌∷◌, map, Text}
use event_relay.Store.{World, Database}
use event_relay.Store.Atomic.{Ends, Ends-imp}
use event_relay.Migrator.{create_if_missing, run_migrations}
use event_relay.Migrator.Migrations.{
  Migration, migrations, initial_schema, add_outbox_and_subscriptions, add_no_targets_status,
  align_circuit_breakers,
}
use event_relay.Migrator.Versions.{row_of}
use event_relay.Migrator.Applied.{Applied}
use event_relay.Migrator.Prefix.{Found, Found-of_Applied, Partly, run_migrations-Applied}

module _ (base : Database) where
  same_database :
      (ms : List Migration) (db before : Database)
      → Applied base ms db
      → Applied base ms before
      → db ≡ before
  same_database ms db before (c, e, f) (d, g, h) = let same : c ≡ d = cc in rw (f, h, same) refl

  already :
      (o : Option (List (Text × Text))) (r : Text × Text) (rows : List (Text × Text))
      → create_if_missing o ≡ some (r ∷ rows)
      → create_if_missing o ≡ o
  already none r rows e = cc
  already (some rows) r rest e = refl

  started :
      (m : Migration) (ms : List Migration) (db : Database)
      → Found base (m ∷ ms) db
      → Applied base (m ∷ ms) db
  started m ms db (c, e, f) = (
    c,
    e,
    rw
        (already db.schema_migrations (row_of m) (map row_of ms)
          (ap (λ (x : Database). x.schema_migrations) f))
        at f,
  )

  none_left :
      (m : Migration) (ms : List Migration) (db : Database)
      → Partly base (m ∷ ms) [] db
      → Applied base (m ∷ ms) db
  none_left m ms db ([], back, e, h) =
      started m ms db (subst (λ xs. Found base xs db) (append-nil (m ∷ ms)) h)
  none_left m ms db (x ∷ front, back, e, h) = cc

  -- On tables to which all the migrations were applied, a run changes no table, whether it returns or
  -- throws, and if it returns it has applied none.
  pub run_migrations_again :
      (w : World)
      → Applied base migrations w.db
      → Ends (λ n. λ v. (n ≡ 0) × (v.db ≡ w.db)) (λ v. v.db ≡ w.db) (run_migrations w)
  run_migrations_again w h =
      Ends-imp _ _ _ _ (run_migrations w) (λ n v q. (q.0, same_database migrations v.db w.db q.1 h))
        (λ v q.
          same_database migrations v.db w.db
            (none_left initial_schema
              (add_outbox_and_subscriptions ∷ add_no_targets_status ∷ align_circuit_breakers ∷ [])
              v.db q)
            h)
        (run_migrations-Applied base migrations [] refl w (Found-of_Applied base migrations w.db h))
