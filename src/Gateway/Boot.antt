-- ===== src/Gateway/Boot.antt =====
-- `bootstrap` of backend/src/index.ts, up to the server that listens.
use event_relay.Base.{
  ◌≡◌, refl, inl, inr, Bool, true, not, Option, none, some, List, [], ◌∷◌, ◌++◌, length, Bool-cases,
  Text, codes, text_eq,
}
use event_relay.Store.{
  World, Database, has_text, Result, ok, thrown, M, ◌>>◌, pure, recover, continue, try_catch,
}
use event_relay.Store.Atomic.{Ends, Ends-weaken, continue-Ends, attempt_rule}
use event_relay.Migrator.{run_migrations}
use event_relay.Migrator.Migrations.{Migration, migrations}
use event_relay.Migrator.Applied.{Applied}
use event_relay.Migrator.Prefix.{Found, Partly, run_migrations-Applied}
use event_relay.StreamQueue.Reads.{create_group, init_groups, init_group, all_streams}

-- Which parts the process runs.
pub record Parts : Type 0 where
  pub outbox : Bool
  pub worker : Bool
  pub scheduler : Bool

-- `process.env.X !== 'false'`.
abbrev pub is_wanted : Option Text → Bool
is_wanted none = true
is_wanted (some s) = not (text_eq s (codes "false"))

unfoldable pub parts : (Text → Option Text) → Parts
parts env = record {
  outbox = is_wanted (env (codes "RUN_OUTBOX"));
  worker = is_wanted (env (codes "RUN_WORKER"));
  scheduler = is_wanted (env (codes "RUN_SCHEDULER"));
}

-- The server listens and these parts were started, or `process.exit(1)`.
pub data Boot : Type 0 where
  listening : Parts → Boot
  exited : Boot

unfoldable pub bootstrap : (Text → Option Text) → Text → M Boot
unfolding parts
bootstrap env base =
    try_catch (do run_migrations; init_group base; pure (listening (parts env))) (pure exited)

groups_kept :
    (db : Database) (streams : List Text) (w : World)
    → w.db ≡ db
    → Ends (λ _. λ v. v.db ≡ db) (λ v. ⊥) (init_groups streams w)
unfolding init_groups
groups_kept db [] w h = h
groups_kept db (s ∷ streams) w h =
    continue-Ends (λ _. λ v. v.db ≡ db) (λ _. λ v. v.db ≡ db) (λ v. ⊥)
      (try_catch (create_group s) (pure tt) w) (λ _. init_groups streams) created
      (λ _ v e. groups_kept db streams v e)
  where
    created : Ends (λ _. λ v. v.db ≡ db) (λ v. ⊥) (try_catch (create_group s) (pure tt) w)
    created =
        attempt_rule (λ r. Ends (λ _. λ v. v.db ≡ db) (λ v. ⊥) (recover r (pure tt))) _ w.faults w
          (λ rest. h)
          (λ rest. elim (Bool-cases (has_text s w.redis.groups)) [
            | inl e ↦ rw e h
            | inr e ↦ rw e h
          ])

module _ (base : Database) (done todo : List Migration) where
  -- The tables when `bootstrap` is over.
  abbrev pub Ready : Boot → World → Type 0
  Ready (listening started) v = Applied base (done ++ todo) v.db
  Ready exited v = Partly base done todo v.db

  abbrev Stopped : World → Type 0
  Stopped v = Partly base done todo v.db

  after_catch :
      (r : Result Boot × World)
      → Ends Ready Stopped r
      → Ends Ready (λ v. ⊥) (recover r (pure exited))
  after_catch (ok b, v) h = h
  after_catch (thrown, v) h = h

  after_groups :
      (started : Parts) (streams : List Text) (v : World)
      → Applied base (done ++ todo) v.db
      → Ends Ready Stopped (continue (init_groups streams v) (λ _. pure (listening started)))
  after_groups started streams v a =
      continue-Ends (λ _. λ u. u.db ≡ v.db) Ready Stopped (init_groups streams v)
        (λ _. pure (listening started))
        (Ends-weaken (λ _. λ u. u.db ≡ v.db) (λ u. ⊥) Stopped (init_groups streams v)
          (λ u h. absurd h) (groups_kept v.db streams v refl))
        (λ _ u e. rw e a)

  -- Whichever calls fail, the start of the process ends. If the server listens, all the migrations are
  -- applied; if the process exits, a first part of those that were pending is, each as a whole.
  pub bootstrap-Ready :
      (env : Text → Option Text) (stream : Text) (w : World)
      → done ++ todo ≡ migrations
      → Found base done w.db
      → Ends Ready (λ v. ⊥) (bootstrap env stream w)
  unfolding bootstrap init_group
  bootstrap-Ready env stream w e h = after_catch _ (
      continue-Ends (λ n. λ v. (n ≡ length todo) × Applied base (done ++ todo) v.db) Ready Stopped
        (run_migrations w) _ (run_migrations-Applied base done todo e w h)
        (λ n v q. after_groups (parts env) (all_streams stream) v q.1))
