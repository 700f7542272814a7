-- ===== src/Lifecycle/Tests.antt =====
-- The timers of backend/src/worker, started and stopped.
use event_relay.Base.{◌≡◌, ◌≤◌, ◌+◌, refl, true, false, some, [], ◌∷◌, codes, arith}
use event_relay.Store.{World}
use event_relay.Store.Atomic.{Ends}
use event_relay.Sample.{world}
use event_relay.Lease.{put_lock, owns}
use event_relay.Lease.Held.{Held}
use event_relay.Lifecycle.{
  start, stop, poke, tick, immediate, idle, act, acts, lease_act, begin_start, claims_done,
  stop_lease,
}
use event_relay.Lifecycle.Stopped.{stop-bounds_runs}
use event_relay.Lifecycle.Shutdown.{Process, succeeded, shutdown-hands_over}

late_runs :
    (acts true (tick ∷ immediate ∷ []) (act true stop (acts true (start ∷ poke ∷ []) idle))).runs
    ≤ (acts true (start ∷ poke ∷ []) idle).runs + (acts true (start ∷ poke ∷ []) idle).immediates
late_runs = stop-bounds_runs true (start ∷ poke ∷ []) (tick ∷ immediate ∷ []) (tt, (tt, tt))

-- Stopped while `start` waits for its claims: the interval is set all the same.
stopped_too_early :
    lease_act claims_done (
      lease_act stop_lease (
        lease_act begin_start
          (record { is_running = false; timer = false; intervals = 0; starting = 0 })))
    ≡ record { is_running = false; timer = true; intervals = 1; starting = 0 }
unfolding lease_act
stopped_too_early = refl

-- Worker w-1 holds shards 3 and 5 and shuts down; w-2 has shard 1.
abbrev held_world : World
held_world = record world {
  redis = record (world.redis) {
    locks = put_lock 3 (some (record { owner = codes "w-1"; expires_at = 1010000 })) (
        put_lock 5 (some (record { owner = codes "w-1"; expires_at = 1010000 })) world.redis.locks);
  };
}

abbrev process : Process
process = record {
  publisher = acts true (start ∷ []) idle;
  scheduler = acts false (start ∷ []) idle;
  worker_running = true;
  leases = record { is_running = true; timer = true; intervals = 1; starting = 0 };
  owned_shards = 3 ∷ 5 ∷ [];
  listening = true;
}

shutdown-hands_over_example :
    Ends
      (λ left. λ v. (owns 5 left ≡ true) × Held (codes "w-2") (1000000 + 5000) v.redis.locks 5)
      (λ _. ⊥)
      (succeeded (codes "w-1") process 5000 (codes "w-2") 15 8 (1 ∷ []) held_world)
shutdown-hands_over_example =
    shutdown-hands_over (codes "w-1") (codes "w-2") process 5 5000 15 8 (1 ∷ []) held_world refl
      refl refl (omega arith) (omega arith)
