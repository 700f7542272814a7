-- ===== src/Migrator/Prefix.antt =====
-- backend/src/db/migrator.ts: where the loop over the migrations can stop.
use mathlib.Core.List.{append_assoc, append-nil}
use event_relay.Base.{
  ℕ, ◌+◌, ◌≡◌, refl, ap, Option, some, List, [], ◌∷◌, ◌++◌, map, length, All, Text, arith,
}
use event_relay.Store.{
  World, Database, execute, with_transaction, ◌>>=◌, Result, M, ok, thrown, continue, pure,
}
use event_relay.Store.Atomic.{
  Commits, Ends, call-Returns, attempt_rule, continue-Ends, Ends-imp, with_transaction-Commits,
}
use event_relay.Migrator.{
  apply_migration, apply_pending, create_if_missing, run_migrations, read_versions, versions_of,
}
use event_relay.Migrator.Migrations.{Migration, migrations}
use event_relay.Migrator.Versions.{row_of, versions, Skipped, Pending, done_Skipped, rest_Pending}
use event_relay.Migrator.Applied.{Applied, apply-Commits}

-- The same, before `schema_migrations` has to exist.
abbrev pub Found : Database → List Migration → Database → Type 0
Found base done db =
    Applied base done (record db { schema_migrations = create_if_missing db.schema_migrations })

-- Of the migrations to come, a first part was applied, and nothing else was changed.
abbrev pub Partly : Database → List Migration → List Migration → Database → Type 0
Partly base done todo db =
    (front : List Migration) × (back : List Migration) × (front ++ back ≡ todo)
    × Found base (done ++ front) db

pub Found-of_Applied :
    (base : Database) (done : List Migration) (db : Database)
    → Applied base done db
    → Found base done db
Found-of_Applied base done db (c, e, f) = (c, e, rw f refl)

none_more :
    (base : Database) (done todo : List Migration) (db : Database)
    → Found base done db
    → Partly base done todo db
none_more base done todo db h = ([], todo, refl, rw (append-nil done) h)

one_more :
    (base : Database) (done : List Migration) (m : Migration) (todo : List Migration)
    (db : Database)
    → Partly base (done ++ m ∷ []) todo db
    → Partly base done (m ∷ todo) db
one_more base done m todo db (front, back, e, h) =
    (m ∷ front, back, ap (λ t. m ∷ t) e, rw (← append_assoc done (m ∷ []) front) h)

-- All of them were applied, and counted from `n` on.
abbrev Whole : Database → List Migration → List Migration → ℕ → ℕ → World → Type 0
Whole base done todo n k v = (k ≡ n + length todo) × Applied base (done ++ todo) v.db

abbrev Stopped : Database → List Migration → List Migration → World → Type 0
Stopped base done todo v = Partly base done todo v.db

pub skip :
    (applied : List Text) (done todo : List Migration) (n : ℕ) (w : World)
    → All (Skipped applied) done
    → apply_pending applied (done ++ todo) n w ≡ apply_pending applied todo n w
unfolding apply_pending
skip applied [] todo n w h = refl
skip applied (m ∷ done) todo n w h =
    let same : n + 0 ≡ n = omega arith in rw (h.0, same) (skip applied done todo n w h.1)

module _ (base : Database) where
  apply-Ends :
      (done : List Migration) (m : Migration) (todo : List Migration) (w : World)
      → Applied base done w.db
      → (r : Result (Unit {0}) × World)
      → Commits (λ _. λ v. Applied base (done ++ m ∷ []) v.db) w.db r
      → Ends (Whole base done (m ∷ []) 0) (Stopped base done (m ∷ todo)) (continue r (λ _. pure 1))
  apply-Ends done m todo w h (ok _, v) c = (refl, c)
  apply-Ends done m todo w h (thrown, v) c =
      none_more base done (m ∷ todo) v.db (rw c (Found-of_Applied base done w.db h))

  loop-Ends :
      (applied : List Text) (todo done : List Migration) (n : ℕ) (w : World)
      → All (Pending applied) todo
      → Applied base done w.db
      → Ends (Whole base done todo n) (Stopped base done todo) (apply_pending applied todo n w)
  unfolding apply_pending
  loop-Ends applied [] done n w p h = (omega arith, rw (append-nil done) h)
  loop-Ends applied (m ∷ todo) done n w p h = rw p.0 (
      continue-Ends (Whole base done (m ∷ []) 0) (Whole base done (m ∷ todo) n)
        (Stopped base done (m ∷ todo)) (continue (apply_migration m w) (λ _. pure 1))
        (λ one. apply_pending applied todo (n + one))
        (apply-Ends done m todo w h (apply_migration m w) (apply-Commits m base done w h))
        (λ one v q.
          Ends-imp (Whole base (done ++ m ∷ []) todo (n + one)) (Whole base done (m ∷ todo) n)
            (Stopped base (done ++ m ∷ []) todo) (Stopped base done (m ∷ todo))
            (apply_pending applied todo (n + one) v)
            (λ k u a. (omega (arith, a.0, q.0), rw (← append_assoc done (m ∷ []) todo) a.1))
            (λ u. one_more base done m todo u.db)
            (loop-Ends applied todo (done ++ m ∷ []) (n + one) v p.1 q.1)))

  -- What follows the SELECT.
  selected :
      (done todo : List Migration) (w : World)
      → done ++ todo ≡ migrations
      → Applied base done w.db
      → Ends
          (Whole base done todo 0)
          (Stopped base done todo)
          (apply_pending (versions done) migrations 0 w)
  selected done todo w e h =
      rw (← e, skip (versions done) done todo 0 w (done_Skipped done))
        (loop-Ends (versions done) todo done 0 w (rest_Pending done todo e) h)

  from_rows :
      (done todo : List Migration) (w : World)
      → done ++ todo ≡ migrations
      → Applied base done w.db
      → (o : Option (List (Text × Text))) → o ≡ some (map row_of done)
      → Ends
          (Whole base done todo 0)
          (Stopped base done todo)
          (continue (versions_of w o) (λ applied. apply_pending applied migrations 0))
  from_rows done todo w e h o there = rw there (selected done todo w e h)

  created :
      (done todo : List Migration) (before : Database) (r : Result (Unit {0}) × World)
      → Found base done before
      → Commits (λ _. λ v. Applied base done v.db) before r
      → Ends (λ _. λ v. Applied base done v.db) (Stopped base done todo) r
  created done todo before (ok _, v) h c = c
  created done todo before (thrown, v) h c = none_more base done todo v.db (rw c h)

  create : M (Unit {0})
  create = execute (λ db. record db { schema_migrations = create_if_missing db.schema_migrations })

  following : M ℕ
  unfolding read_versions
  following = do applied ← read_versions; apply_pending applied migrations 0

  run-Ends :
      (done todo : List Migration)
      → done ++ todo ≡ migrations
      → (w : World) → Found base done w.db
      → Ends (Whole base done todo 0) (Stopped base done todo) (run_migrations w)
  unfolding run_migrations read_versions following create
  run-Ends done todo e w h =
      continue-Ends (λ _. λ v. Applied base done v.db) (Whole base done todo 0)
        (Stopped base done todo) (with_transaction create w) (λ _. following)
        (created done todo w.db _ h (
          with_transaction-Commits (λ _. λ v. Applied base done v.db) create w (λ _ v fs q. q)
            (λ fs.
              call-Returns (λ _. λ v. Applied base done v.db) _ (record w { faults = fs })
                (λ rest. h))))
        (λ _ v a.
          attempt_rule
            (λ r.
              Ends (Whole base done todo 0) (Stopped base done todo)
                (continue r (λ applied. apply_pending applied migrations 0)))
            (λ w. versions_of w w.db.schema_migrations) v.faults v
            (λ rest. none_more base done todo v.db (Found-of_Applied base done v.db a))
            (λ rest.
              from_rows done todo (record v { faults = rest }) e a v.db.schema_migrations
                (rw a.2 refl)))

  -- Whichever calls fail, a run that is to apply `todo` and returns has applied all of it and returns
  -- how many they are; a run that throws has applied a first part of it, each migration as a whole
  -- with its row, and has changed nothing else of the database.
  pub run_migrations-Applied :
      (done todo : List Migration)
      → done ++ todo ≡ migrations
      → (w : World) → Found base done w.db
      → Ends
          (λ n. λ v. (n ≡ length todo) × Applied base (done ++ todo) v.db)
          (λ v. Partly base done todo v.db)
          (run_migrations w)
  run_migrations-Applied done todo e w h =
      Ends-imp (Whole base done todo 0)
        (λ n. λ v. (n ≡ length todo) × Applied base (done ++ todo) v.db) (Stopped base done todo)
        (Stopped base done todo) (run_migrations w) (λ n v q. (omega (arith, q.0), q.1)) (λ v q. q)
        (run-Ends done todo e w h)
