-- ===== src/InboundLimit.antt =====
-- backend/src/middleware/rateLimit.ts: the limiter of inbound requests, and its buckets in memory for
-- when Redis does not answer. The rate is the capacity; tokens are in thousandths, as in RateLimiter.
pub mod Local
pub mod Shared
pub mod Answers
mod Tests
use event_relay.Base.{
  ℕ, ◌+◌, ◌*◌, ◌/◌, Bool, true, false, ltb, if◌then◌else◌, Option, none, some, List, [], ◌∷◌, ◌++◌,
  Text, codes, text_eq, or_null,
}
use event_relay.Base.Int.{ℤ, pos, pos_part, sub_ℕ, ◌+ℤ◌, minℤ}
use event_relay.Base.Decimal.{decimal}
use event_relay.Store.{
  World, Redis, LocalBucket, M, ◌>>=◌, ◌>>◌, pure, modify, command, try_catch, ok, Result,
}
use event_relay.Metrics.{inc_rate_limiter_error}
use event_relay.RateLimiter.{refilled, spent, has_token, live_bucket, store_bucket}
use event_relay.Http.{Request, Reply, Gate, next, answered}

-- `Math.floor` of the tokens that are left, 0 where none was granted.
abbrev pub remaining : ℤ → ℕ
remaining tokens = if has_token tokens then pos_part (spent tokens) / 1000 else 0

-- The Lua script: whether a token was granted, and how many are left.
unfoldable pub inbound_token : Text → ℕ → ℕ → Redis → (Bool × ℕ) × Redis
inbound_token key capacity now redis =
    let tokens = refilled capacity capacity now (live_bucket key now redis.buckets) in
    (
      (has_token tokens, remaining tokens),
      record redis { buckets = store_bucket key (spent tokens) now redis.buckets },
    )

-- `caller`: the X-API-Key header, the address, or `global`.
abbrev pub address : Option Text → Text
address none = codes "global"
address (some []) = codes "global"
address (some (c ∷ ip)) = c ∷ ip

abbrev pub or_address : Option Text → Option Text → Text
or_address none ip = address ip
or_address (some key) ip = key

unfoldable pub caller_of : Request → Text
caller_of req = or_address (or_null (req.header (codes "X-API-Key"))) req.ip

-- The tokens of a caller's bucket in memory: a new one is full.
unfoldable pub local_refilled : ℕ → ℕ → Option LocalBucket → ℤ
local_refilled capacity now none = pos (1000 * capacity)
local_refilled capacity now (some b) =
    minℤ (pos (1000 * capacity))
      (b.milli_tokens +ℤ sub_ℕ (now * capacity) (b.last_refill * capacity))

-- `localBuckets.set(caller, …)`.
abbrev pub set_bucket : Text → LocalBucket → (Text → Option LocalBucket) → Text → Option LocalBucket
set_bucket caller b buckets key = if text_eq key caller then some b else buckets key

-- The bucket in memory: whether a token was granted, how many are left, and the buckets after.
unfoldable pub take_local :
    Text → ℕ → ℕ → (Text → Option LocalBucket) → (Bool × ℕ) × (Text → Option LocalBucket)
unfolding local_refilled
take_local caller capacity now buckets =
    let tokens = local_refilled capacity now (buckets caller) in
    (
      (has_token tokens, remaining tokens),
      set_bucket caller (record { milli_tokens = spent tokens; last_refill = now }) buckets,
    )

abbrev pub kept : ℕ → Option LocalBucket → Option LocalBucket
kept now none = none
kept now (some b) = if ltb (b.last_refill + 60000) now then none else some b

-- The round of `cleanupTimer`: the buckets idle for more than a minute are deleted.
unfoldable pub clean_up : ℕ → (Text → Option LocalBucket) → Text → Option LocalBucket
clean_up now buckets key = kept now (buckets key)

abbrev pub limit_headers : ℕ → ℕ → List (Text × Text)
limit_headers capacity left =
    (codes "X-RateLimit-Limit", decimal capacity)
    ∷ (codes "X-RateLimit-Remaining", decimal left)
    ∷ []

abbrev pub too_many : List (Text × Text) → Gate
too_many headers = answered (record {
  status = 429;
  headers = headers ++ (codes "Retry-After", codes "1") ∷ [];
  error = codes "Too Many Requests. Ingestion rate limit exceeded.";
})

-- What follows the script's answer.
abbrev pub shared_answer : ℕ → Bool × ℕ → Gate
shared_answer capacity (true, left) = next (limit_headers capacity left)
shared_answer capacity (false, left) = too_many (limit_headers capacity left)

-- And the bucket's: a refusal has no limit in its headers.
abbrev pub local_answer : ℕ → Bool × ℕ → Gate
local_answer capacity (true, left) = next (limit_headers capacity left)
local_answer capacity (false, left) = too_many []

-- The `catch`.
unfoldable pub fall_back : Text → ℕ → M Gate
unfolding take_local
fall_back caller capacity = do
  modify inc_rate_limiter_error
  λ w.
      let (answer, buckets) = take_local caller capacity w.now w.local_buckets in
      (ok (local_answer capacity answer), record w { local_buckets = buckets })

abbrev pub run_script : Text → ℕ → M (Bool × ℕ)
run_script caller capacity =
    command (λ w. inbound_token (codes "ratelimit:inbound:" ++ caller) capacity w.now w.redis)

unfoldable pub inbound_rate_limiter : ℕ → Request → M Gate
unfolding inbound_token caller_of fall_back
inbound_rate_limiter capacity req =
    try_catch
      (do result ← run_script (caller_of req) capacity; pure (shared_answer capacity result))
      (fall_back (caller_of req) capacity)
