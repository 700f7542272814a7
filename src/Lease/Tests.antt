-- ===== src/Lease/Tests.antt =====
-- Two workers and a shard.
use event_relay.Base.{◌≡◌, ◌≢◌, refl, some, [], ◌∷◌, codes, arith, true, false, text_eq_iff}
use event_relay.Store.{World}
use event_relay.Store.Atomic.{Ends}
use event_relay.Sample.{world}
use event_relay.Lease.{put_lock, heartbeat}
use event_relay.Lease.Held.{LeavesSafe, heartbeat-Safe}
use event_relay.Lease.Owned.{AllHeld, heartbeat-AllHeld}

-- Worker w-2 holds shard 3.
abbrev held_world : World
held_world = record world {
  redis = record (world.redis) {
    locks =
        put_lock 3 (some (record { owner = codes "w-2"; expires_at = 1010000 })) world.redis.locks;
  };
}

other_worker : codes "w-1" ≢ codes "w-2"
other_worker e = let h : false ≡ true = (text_eq_iff (codes "w-1") (codes "w-2")).1 e in cc

heartbeat-Safe_example :
    LeavesSafe (codes "w-2") 3 1000000 (heartbeat (codes "w-1") 15 8 (3 ∷ []) held_world)
heartbeat-Safe_example =
    heartbeat-Safe (codes "w-2") 3 1000000 (codes "w-1") other_worker 15 8 (3 ∷ []) held_world
      (refl, refl)

all_shards_held :
    Ends
      (AllHeld (codes "w-1") 15 1000000 (omega arith))
      (λ _. ⊥)
      (heartbeat (codes "w-1") 15 8 (3 ∷ []) held_world)
all_shards_held =
    heartbeat-AllHeld (codes "w-1") 15 1000000 (omega arith) 8 (3 ∷ []) held_world (refl, refl)
