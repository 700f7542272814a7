-- ===== src/RateLimiter.antt =====
-- backend/src/resilience/tokenBucket.ts: the limiter of outbound requests. Rates and capacities are
-- whole numbers and times are in milliseconds, so the script's tokens are whole thousandths.
pub mod Bounds
pub mod Frame
mod Tests
use event_relay.Base.{
  ℕ, ◌+◌, ◌*◌, ◌-◌, Bool, true, false, not, ◌&&◌, ltb, if◌then◌else◌, Option, none, some, List, [],
  ◌∷◌, ◌++◌, Text, codes, text_eq, find,
}
use event_relay.Base.Int.{ℤ, pos, negsuc, sub_ℕ, ◌+ℤ◌, minℤ, leℤb}
use event_relay.Store.{World, Redis, Bucket, M, ◌>>=◌, ◌>>◌, pure, modify, command, try_catch}
use event_relay.Metrics.{inc_rate_limiter_error}

-- A key whose life is over is gone.
abbrev pub unexpired : ℕ → Option Bucket → Option Bucket
unexpired now none = none
unexpired now (some b) = if ltb now b.expires_at then some b else none

-- `HMGET key …`: the hash at a key, if it is there and has not expired.
unfoldable pub live_bucket : Text → ℕ → List Bucket → Option Bucket
live_bucket key now bs = unexpired now (find (λ (b : Bucket). text_eq b.key key) bs)

-- `HMSET` and `EXPIRE key 60`.
unfoldable pub store_bucket : Text → ℤ → ℕ → List Bucket → List Bucket
store_bucket key tokens now [] =
    record { key = key; milli_tokens = tokens; last_refill = now; expires_at = now + 60000 } ∷ []
store_bucket key tokens now (b ∷ bs) =
    if text_eq b.key key
    then record { key = b.key; milli_tokens = tokens; last_refill = now; expires_at = now + 60000 }
      ∷ bs
    else b ∷ store_bucket key tokens now bs

-- A new bucket is full. The refill is negative if the caller's clock is behind the last one's.
unfoldable pub refilled : ℕ → ℕ → ℕ → Option Bucket → ℤ
refilled capacity rate now none = pos (1000 * capacity)
refilled capacity rate now (some b) =
    minℤ (pos (1000 * capacity)) (b.milli_tokens +ℤ sub_ℕ (now * rate) (b.last_refill * rate))

abbrev pub has_token : ℤ → Bool
has_token tokens = leℤb (pos 1000) tokens

-- What the script leaves of the tokens: one less, if it granted one.
unfoldable pub spent : ℤ → ℤ
spent tokens = if has_token tokens then tokens +ℤ negsuc 999 else tokens

-- The Lua script, which Redis runs as one command.
unfoldable pub take_token : Text → ℕ → ℕ → ℕ → Redis → Bool × Redis
unfolding live_bucket store_bucket refilled spent
take_token key capacity rate now redis =
    let tokens = refilled capacity rate now (live_bucket key now redis.buckets) in
    (has_token tokens, record redis { buckets = store_bucket key (spent tokens) now redis.buckets })

-- `consume`: on a Redis error the limiter lets the request through, unless it is to fail closed.
unfoldable pub consume : Bool → Text → ℕ → ℕ → M Bool
unfolding take_token
consume fail_closed key capacity rate =
    try_catch (command (λ w. take_token (codes "ratelimit:" ++ key) capacity rate w.now w.redis))
      (do modify inc_rate_limiter_error; pure (not fail_closed))
