-- ===== src/InboundLimit/Tests.antt =====
-- backend/src/middleware/rateLimit.ts with Redis and without.
use event_relay.Base.{
  ◌≡◌, ◌≤◌, ◌+◌, ◌*◌, refl, true, Option, some, none, [], ◌∷◌, Text, codes, arith,
}
use event_relay.Base.Int.{minℤ, ◌+ℤ◌}
use event_relay.RateLimiter.{spent}
use event_relay.Store.{World, LocalBucket}
use event_relay.Store.Atomic.{Ends}
use event_relay.Sample.{world}
use event_relay.Http.{Request}
use event_relay.InboundLimit.{inbound_rate_limiter, take_local, clean_up}
use event_relay.InboundLimit.Local.{ask, clean, local_grants, local_grants_bound}
use event_relay.InboundLimit.Shared.{inbound_grants, inbound_grants_bound}
use event_relay.InboundLimit.Answers.{Decided, inbound_rate_limiter-Decided}

abbrev sample_request : Request
sample_request = record { header = λ h. none; query = λ q. none; ip = some (codes "203.0.113.9") }

abbrev without_redis : World
without_redis = record world { faults = true ∷ [] }

abbrev no_buckets : Text → Option LocalBucket
no_buckets caller = none

script_decides :
    Ends
      (Decided 5 sample_request without_redis)
      (λ v. ⊥)
      (inbound_rate_limiter 5 sample_request without_redis)
script_decides = inbound_rate_limiter-Decided 5 sample_request without_redis

-- Of four requests the third is refused; the fourth comes after the bucket was deleted.
local_grants_bound_example :
    1000
        * local_grants
            (codes "global")
            2
            (ask 1000 ∷ ask 1000 ∷ ask 1100 ∷ clean 61200 ∷ ask 61200 ∷ [])
            no_buckets
      + 1000 * 2
    ≤ 1000 * 2 + 61200 * 2
local_grants_bound_example =
    local_grants_bound (codes "global") 2 1000
      (ask 1000 ∷ ask 1000 ∷ ask 1100 ∷ clean 61200 ∷ ask 61200 ∷ []) no_buckets refl
      (omega arith, (omega arith, (omega arith, (omega arith, (omega arith, tt)))))

three_granted :
    local_grants
      (codes "global")
      2
      (ask 1000 ∷ ask 1000 ∷ ask 1100 ∷ clean 61200 ∷ ask 61200 ∷ [])
      no_buckets
    ≡ 3
unfolding local_grants take_local clean_up spent minℤ ◌+ℤ◌
three_granted = refl

two_of_three_asked :
    1000 * inbound_grants (codes "k") 2 (1000 ∷ 1000 ∷ 1600 ∷ []) world.redis + 1000 * 2
    ≤ 1000 * 2 + 1600 * 2
two_of_three_asked =
    inbound_grants_bound (codes "k") 2 1000 (1000 ∷ 1600 ∷ []) world.redis refl
      (omega arith, (omega arith, tt))
