-- ===== src/Migrator/Applied.antt =====
-- backend/src/db/migrator.ts: which migrations a run has applied, wherever it stops.
use mathlib.Core.List.{map-append}
use event_relay.Base.{
  ◌≡◌, refl, sym, ap, ◌∙◌, Bool-cases, Option, some, Option-cases, List, [], ◌∷◌, ◌++◌, map, Text,
  inl, inr,
}
use event_relay.Store.{World, Database, Catalog, Statement, has_text, run_sql, then_run}
use event_relay.Store.Atomic.{
  Returns, Commits, call-Returns, Returns-weaken, continue-Returns, with_transaction-Commits,
}
use event_relay.Migrator.{run_text, record_version, insert_row, apply_migration}
use event_relay.Migrator.Migrations.{Migration}
use event_relay.Migrator.Versions.{row_of, version_of_row}

-- The catalog after the statements of some migrations.
abbrev pub run_all : List Migration → Catalog → Option Catalog
run_all [] c = some c
run_all (m ∷ ms) c = then_run (run_sql m.sql c) (run_all ms)

run_all-snoc :
    (ms : List Migration) (m : Migration) (c : Catalog)
    → run_all (ms ++ m ∷ []) c ≡ then_run (run_all ms c) (run_sql m.sql)
run_all-snoc [] m c = elim (Option-cases (run_sql m.sql c)) [
  | inl e ↦ rw e refl
  | inr (d, e) ↦ rw e refl
]
run_all-snoc (x ∷ ms) m c = elim (Option-cases (run_sql x.sql c)) [
  | inl e ↦ rw e refl
  | inr (d, e) ↦ rw e (run_all-snoc ms m d)
]

-- The tables are those of `base`, but for the effect of the migrations `done` and their rows.
abbrev pub Applied : Database → List Migration → Database → Type 0
Applied base done db =
    (c : Catalog) × (run_all done base.catalog ≡ some c)
    × (db ≡ record base { catalog = c; schema_migrations = some (map row_of done) })

run_text-Returns :
    (sql : List Statement) (v : World)
    → Returns
        (λ _. λ u.
          (d : Catalog) × (run_sql sql v.db.catalog ≡ some d)
          × (u.db ≡ record (v.db) { catalog = d }))
        (run_text sql v)
unfolding run_text
run_text-Returns sql v = call-Returns _ _ v (λ rest.
    elim (Option-cases (run_sql sql v.db.catalog)) [
      | inl e ↦ rw e tt
      | inr (d, e) ↦ rw e (d, refl, refl)
    ])

module _ (m : Migration) where
  record_version-Returns :
      (v : World) (rows : List (Text × Text))
      → v.db.schema_migrations ≡ some rows
      → Returns
          (λ _. λ u. u.db ≡ record (v.db) { schema_migrations = some (rows ++ row_of m ∷ []) })
          (record_version m v)
  unfolding record_version insert_row
  record_version-Returns v rows e = call-Returns _ _ v (λ rest.
      rw e (elim (Bool-cases (has_text m.version (map version_of_row rows))) [
        | inl t ↦ rw t tt
        | inr t ↦ rw t refl
      ]))

  module _ (base : Database) (done : List Migration) where
    after_both :
        (w v u : World) (d : Catalog)
        → Applied base done w.db
        → run_sql m.sql w.db.catalog ≡ some d
        → v.db ≡ record (w.db) { catalog = d }
        → u.db ≡ record (v.db) { schema_migrations = some (map row_of done ++ row_of m ∷ []) }
        → Applied base (done ++ m ∷ []) u.db
    after_both w v u d (c, e, f) r a b = (
      d,
      (let found : run_sql m.sql c ≡ some d =
            ap (λ (x : Database). run_sql m.sql x.catalog) (sym f) ∙ r in
          run_all-snoc done m base.catalog ∙ (rw e found)),
      rw (b, a, f, map-append row_of done (m ∷ [])) refl,
    )

    pub apply-Commits :
        (w : World)
        → Applied base done w.db
        → Commits (λ _. λ v. Applied base (done ++ m ∷ []) v.db) w.db (apply_migration m w)
    unfolding apply_migration
    apply-Commits w h =
        with_transaction-Commits (λ _. λ v. Applied base (done ++ m ∷ []) v.db) _ w (λ _ v fs q. q)
          (λ fs.
            continue-Returns _ _ (run_text m.sql (record w { faults = fs })) (λ _. record_version m)
              (run_text-Returns m.sql (record w { faults = fs }))
              (λ _ v q.
                Returns-weaken _ _ (record_version m v) (λ _ u b. after_both w v u q.0 h q.1 q.2 b)
                  (record_version-Returns v (map row_of done) (rw (q.2, h.2) refl))))
