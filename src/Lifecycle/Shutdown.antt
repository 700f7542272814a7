-- ===== src/Lifecycle/Shutdown.antt =====
-- `shutdown` of backend/src/index.ts, on SIGTERM and SIGINT, up to `server.close`, with `stop` of
-- backend/src/worker/deliveryWorker.ts and `releaseAll` of shardLeaseCoordinator.ts.
use event_relay.Base.{ℕ, ◌+◌, ◌<◌, ◌≡◌, refl, inr, Bool, true, false, List, [], Text}
use event_relay.Store.{World, M, ◌>>=◌, ◌>>◌, pure}
use event_relay.Store.Atomic.{Ends, continue-Ends}
use event_relay.Lease.{owns, heartbeat, release_shards}
use event_relay.Lease.Held.{Held}
use event_relay.Lease.Handover.{Vacant, release_shards-Vacant, heartbeat_takes}
use event_relay.Worker.Loop.{sleep, stop}
use event_relay.Lifecycle.{Timed, LeaseTimer, stop_timer, lease_act, stop_lease}

-- What a process has running: the two timers, the worker's loop, its leases, and the server.
pub record Process : Type 0 where
  pub publisher : Timed
  pub scheduler : Timed
  pub worker_running : Bool
  pub leases : LeaseTimer
  pub owned_shards : List ℕ
  pub listening : Bool

-- `server.close`: it takes no more connections. Its callback, once the last one is over, exits.
unfoldable pub shutdown : Text → Process → M Process
unfolding stop stop_timer lease_act
shutdown worker p = do
  owned ← stop worker p.owned_shards
  pure (record {
    publisher = stop_timer p.publisher;
    scheduler = stop_timer p.scheduler;
    worker_running = false;
    leases = lease_act stop_lease p.leases;
    owned_shards = owned;
    listening = false;
  })

-- Another worker's heartbeat, some time after.
abbrev pub succeeded : Text → Process → ℕ → Text → ℕ → ℕ → List ℕ → M (List ℕ)
succeeded worker p ms other ttl shard_count owned = do
  shutdown worker p
  sleep ms
  heartbeat other ttl shard_count owned

-- Where no call fails, a shard that a worker owned and held at its shutdown is owned and held by any
-- other worker whose heartbeat comes next, however soon, whatever that took itself to own before, if its
-- leases last and the shard is among those that it counts.
pub shutdown-hands_over :
    (worker other : Text) (p : Process) (s ms ttl shard_count : ℕ) (owned : List ℕ) (w : World)
    → w.faults ≡ []
    → Held worker w.now w.redis.locks s
    → owns s p.owned_shards ≡ true
    → s < shard_count
    → 0 < ttl
    → Ends
        (λ left. λ v. (owns s left ≡ true) × Held other (w.now + ms) v.redis.locks s)
        (λ _. ⊥)
        (succeeded worker p ms other ttl shard_count owned w)
unfolding shutdown stop
shutdown-hands_over worker other p s ms ttl shard_count owned w e h o l lives =
    continue-Ends (λ _. Vacant s w.now) _ (λ _. ⊥) (shutdown worker p w) _
      (continue-Ends (λ left. λ u. (left ≡ []) × Vacant s w.now u) (λ _. Vacant s w.now) (λ _. ⊥)
        (release_shards worker p.owned_shards w) _
        (release_shards-Vacant s w.now worker p.owned_shards w (e, refl, inr (h, o)))
        (λ left u q. q.1))
      (λ _ u q.
        heartbeat_takes other ttl s (w.now + ms) shard_count owned (record u { now = u.now + ms })
          lives l (q.0, rw q.1 refl, q.2))
