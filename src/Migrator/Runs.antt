-- ===== src/Migrator/Runs.antt =====
-- backend/src/db/migrator.ts: a run in which no call fails.
use mathlib.Core.Path.{subst}
use mathlib.Core.List.{append_assoc, append-nil, map-append}
use event_relay.Base.{
  ℕ, suc, ◌+◌, ◌≡◌, refl, ◌∙◌, Option, none, some, List, [], ◌∷◌, ◌++◌, map, length, All, Text,
  arith,
}
use event_relay.Store.{World, Catalog, run_sql, then_run, ok, ◌>>=◌}
use event_relay.Store.Effects.{with_transaction, begin_commit}
use event_relay.Migrator.{
  run_text, record_version, insert_row, apply_migration, apply_pending, run_migrations,
  read_versions, create_if_missing,
}
use event_relay.Migrator.Migrations.{Migration, migrations}
use event_relay.Migrator.Versions.{row_of, versions, Pending, done_Skipped, rest_Pending}
use event_relay.Migrator.Applied.{run_all}
use event_relay.Migrator.Prefix.{skip}

then_run-some :
    (o : Option Catalog) (f : Catalog → Option Catalog) (d : Catalog)
    → then_run o f ≡ some d
    → (x : Catalog) × (o ≡ some x) × (f x ≡ some d)
then_run-some none f d e = cc
then_run-some (some x) f d e = (x, refl, e)

module _ (w : World) where
  -- The world where no call is to fail, with this catalog and the rows of these migrations.
  abbrev pub At : Catalog → List Migration → World
  At c done = record w {
    faults = [];
    db = record (w.db) { catalog = c; schema_migrations = some (map row_of done) };
  }

  apply_runs :
      (done : List Migration) (m : Migration) (c d : Catalog)
      → run_sql m.sql c ≡ some d
      → Pending (versions done) m
      → apply_migration m (At c done) ≡ (ok tt, At d (done ++ m ∷ []))
  unfolding apply_migration run_text record_version insert_row with_transaction begin_commit
  apply_runs done m c d e p = rw (e, p, map-append row_of done (m ∷ [])) refl

  loop_runs :
      (applied : List Text) (todo done : List Migration) (n : ℕ) (c d : Catalog)
      → done ++ todo ≡ migrations
      → All (Pending applied) todo
      → run_all todo c ≡ some d
      → apply_pending applied todo n (At c done) ≡ (ok (n + length todo), At d (done ++ todo))
  unfolding apply_pending
  loop_runs applied [] done n c d e p r =
      let same : c ≡ d = cc in
      let none_more : n ≡ n + 0 = omega arith in rw (append-nil done, same, ← none_more) refl
  loop_runs applied (m ∷ todo) done n c d e p r =
      let (x, t, u) = then_run-some (run_sql m.sql c) (run_all todo) d r in
      let counted : n + 1 + length todo ≡ n + suc (length todo) = omega arith in
      rw (p.0, apply_runs done m c x t (rest_Pending done (m ∷ todo) e).0)
        (loop_runs applied todo (done ++ m ∷ []) (n + 1) x d (append_assoc done (m ∷ []) todo ∙ e)
            p.1 u
          ∙ rw (counted, append_assoc done (m ∷ []) todo) refl)

from_selected :
    (w : World) (done todo : List Migration)
    → done ++ todo ≡ migrations
    → (c : Catalog) → run_all todo w.db.catalog ≡ some c
    → apply_pending (versions done) migrations 0 (At w w.db.catalog done)
      ≡ (ok (length todo), At w c migrations)
from_selected w done todo e c r =
    let counted : 0 + length todo ≡ length todo = omega arith in
    let from_start : apply_pending (versions done) (done ++ todo) 0 (At w w.db.catalog done)
        ≡ (ok (length todo), At w c (done ++ todo)) =
      skip (versions done) done todo 0 (At w w.db.catalog done) (done_Skipped done)
      ∙ (loop_runs w (versions done) todo done 0 w.db.catalog c e (rest_Pending done todo e) r
          ∙ rw counted refl) in
    subst
      (λ ms.
        apply_pending (versions done) ms 0 (At w w.db.catalog done) ≡ (ok (length todo), At w c ms))
      e from_start

from_created :
    (w : World) (done todo : List Migration)
    → done ++ todo ≡ migrations
    → (c : Catalog) → run_all todo w.db.catalog ≡ some c
    → (v : World) → v ≡ At w w.db.catalog done
    → (do applied ← read_versions; apply_pending applied migrations 0) v
      ≡ (ok (length todo), At w c migrations)
unfolding read_versions
from_created w done todo e c r v there = rw there (from_selected w done todo e c r)

-- Where no call is to fail and the statements that are left find what they name, a run returns: it
-- has applied all that was left, and returns how many they are.
pub run_migrations_lem :
    (done todo : List Migration)
    → done ++ todo ≡ migrations
    → (w : World) → w.faults ≡ []
    → create_if_missing w.db.schema_migrations ≡ some (map row_of done)
    → (c : Catalog) → run_all todo w.db.catalog ≡ some c
    → run_migrations w ≡ (ok (length todo), At w c migrations)
unfolding run_migrations with_transaction begin_commit
run_migrations_lem done todo e w clear rows c r = rw clear (
    from_created w done todo e c r
      (record w {
        faults = [];
        db = record (w.db) { schema_migrations = create_if_missing w.db.schema_migrations };
      })
      (rw rows refl))
