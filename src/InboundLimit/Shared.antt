-- ===== src/InboundLimit/Shared.antt =====
-- The Lua script of backend/src/middleware/rateLimit.ts against that of the outbound limiter, which
-- it repeats with an answer of its own.
use event_relay.Base.{
  ℕ, suc, ◌+◌, ◌*◌, ◌≤◌, ◌≡◌, refl, none, List, [], ◌∷◌, Text, arith, if◌then◌else◌,
}
use event_relay.Store.{Redis}
use event_relay.RateLimiter.{take_token}
use event_relay.RateLimiter.Bounds.{grants, grants_bound, bucket_at, From, last_of}
use event_relay.InboundLimit.{inbound_token}

-- How many tokens the script grants when it is run at these times.
unfoldable pub inbound_grants : Text → ℕ → List ℕ → Redis → ℕ
inbound_grants key capacity [] redis = 0
inbound_grants key capacity (t ∷ ts) redis =
    let (answer, after) = inbound_token key capacity t redis in
    let rest = inbound_grants key capacity ts after in if answer.0 then suc rest else rest

same_grants :
    (key : Text) (capacity : ℕ) (ts : List ℕ) (redis : Redis)
    → inbound_grants key capacity ts redis ≡ grants key capacity capacity ts redis
unfolding inbound_grants grants inbound_token take_token
same_grants key capacity [] redis = refl
same_grants key capacity (t ∷ ts) redis = rw (same_grants key capacity ts _) refl

-- The script, on a key that has no hash yet, at times that do not go back: it grants at most the
-- capacity and what the rate brings between the first time and the last.
pub inbound_grants_bound :
    (key : Text) (capacity t : ℕ) (ts : List ℕ) (redis : Redis)
    → bucket_at key redis.buckets ≡ none
    → From t ts
    → 1000 * inbound_grants key capacity (t ∷ ts) redis + t * capacity
      ≤ 1000 * capacity + last_of t ts * capacity
inbound_grants_bound key capacity t ts redis absent later =
    rw (same_grants key capacity (t ∷ ts) redis)
      (grants_bound key capacity capacity t ts redis absent (omega arith) later)
