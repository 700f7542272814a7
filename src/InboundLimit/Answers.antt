-- ===== src/InboundLimit/Answers.antt =====
-- `inboundRateLimiter` of backend/src/middleware/rateLimit.ts: who decides, and what is left alone.
use event_relay.Base.{ℕ, ◌+◌, ◌≡◌, refl, ◌⊎◌, inl, inr, codes, ◌++◌}
use event_relay.Store.{World}
use event_relay.Store.Atomic.{Ends, attempt_rule}
use event_relay.Store.Effects.{recover, continue, pure, ok}
use event_relay.Metrics.{inc_rate_limiter_error}
use event_relay.Http.{Request, Gate}
use event_relay.InboundLimit.{
  inbound_token, caller_of, take_local, fall_back, shared_answer, local_answer,
  inbound_rate_limiter,
}

module _ (capacity : ℕ) (req : Request) (w : World) where
  -- The script decided, and the buckets in memory are as they were.
  abbrev pub ByRedis : Gate → World → Type 0
  ByRedis g v =
      let (answer, redis) =
        inbound_token (codes "ratelimit:inbound:" ++ caller_of req) capacity w.now w.redis in
      (g ≡ shared_answer capacity answer)
      × (v.redis ≡ redis)
      × (v.local_buckets ≡ w.local_buckets)
      × (v.metrics ≡ w.metrics)

  -- The bucket in memory decided: Redis is as it was, and the error is counted.
  abbrev pub ByMemory : Gate → World → Type 0
  ByMemory g v =
      let (answer, buckets) = take_local (caller_of req) capacity w.now w.local_buckets in
      (g ≡ local_answer capacity answer)
      × (v.redis ≡ w.redis)
      × (v.local_buckets ≡ buckets)
      × (v.metrics.rate_limiter_errors ≡ w.metrics.rate_limiter_errors + 1)

  abbrev pub Decided : Gate → World → Type 0
  Decided g v = (v.db ≡ w.db) × (ByRedis g v ⊎ ByMemory g v)

  -- The limiter never throws and changes no table. The script decides, or, if the call of it fails,
  -- the bucket in memory does.
  pub inbound_rate_limiter-Decided : Ends Decided (λ v. ⊥) (inbound_rate_limiter capacity req w)
  unfolding inbound_rate_limiter fall_back inc_rate_limiter_error
  inbound_rate_limiter-Decided =
      attempt_rule
        (λ r.
          Ends Decided (λ v. ⊥)
            (recover (continue r (λ result. pure (shared_answer capacity result)))
              (fall_back (caller_of req) capacity)))
        (λ v.
          let (answer, redis) =
            inbound_token (codes "ratelimit:inbound:" ++ caller_of req) capacity v.now v.redis in
          (ok answer, record v { redis = redis }))
        w.faults w (λ rest. (refl, inr (refl, refl, refl, refl)))
        (λ rest. (refl, inl (refl, refl, refl, refl)))
