-- ===== src/RateLimiter/Tests.antt =====
-- A bucket of two tokens at two a second.
use event_relay.Base.{◌+◌, ◌*◌, ◌≤◌, refl, [], ◌∷◌, codes, arith}
use event_relay.Sample.{world}
use event_relay.RateLimiter.Bounds.{grants, grants_bound, last_of}

grants_bound_example :
    1000 * grants (codes "ratelimit:e") 2 2 (1000 ∷ 1000 ∷ 1000 ∷ 70000 ∷ []) world.redis + 1000 * 2
    ≤ 1000 * 2 + last_of 1000 (1000 ∷ 1000 ∷ 70000 ∷ []) * 2
grants_bound_example =
    grants_bound (codes "ratelimit:e") 2 2 1000 (1000 ∷ 1000 ∷ 70000 ∷ []) world.redis refl
      (omega arith) (omega arith, (omega arith, (omega arith, tt)))
