-- ===== src/Lease.antt =====
-- backend/src/worker/shardLeaseCoordinator.ts: which worker reads which shard. `ownedShards` is
-- passed on as a list, in the order of insertion; its clock is that of Redis.
pub mod Held
pub mod Owned
pub mod Handover
mod Tests
use event_relay.Base.{
  ℕ, zero, suc, ◌+◌, ◌*◌, Bool, true, false, not, ltb, ◌==◌, if◌then◌else◌, Option, none, some,
  List, [], ◌∷◌, ◌++◌, any, select, Text, text_eq,
}
use event_relay.Base.Sort.{sort_by}
use event_relay.Store.{World, Redis, Lock, M, ◌>>=◌, ◌>>◌, pure, command, try_catch}

-- A key whose life is over is gone.
abbrev pub live_lock : ℕ → Option Lock → Option Lock
live_lock now none = none
live_lock now (some l) = if ltb now l.expires_at then some l else none

abbrev pub is_owner : Text → Option Lock → Bool
is_owner worker none = false
is_owner worker (some l) = text_eq l.owner worker

abbrev pub is_absent : Option Lock → Bool
is_absent none = true
is_absent (some l) = false

abbrev pub put_lock : ℕ → Option Lock → (ℕ → Option Lock) → ℕ → Option Lock
put_lock shard l locks s = if s == shard then l else locks s

abbrev pub set_lock : ℕ → Option Lock → Redis → Redis
set_lock shard l redis = record redis { locks = put_lock shard l redis.locks }

abbrev pub new_lock : Text → ℕ → ℕ → Lock
new_lock worker ttl now = record { owner = worker; expires_at = now + ttl * 1000 }

-- `SET key worker EX ttl NX`.
unfoldable pub claim_lock : Text → ℕ → ℕ → World → Bool × Redis
claim_lock worker ttl shard w =
    if is_absent (live_lock w.now (w.redis.locks shard))
    then (true, set_lock shard (some (new_lock worker ttl w.now)) w.redis)
    else (false, w.redis)

-- RENEW_LUA and RELEASE_LUA, each of which Redis runs as one command.
unfoldable pub renew_lock : Text → ℕ → ℕ → World → Bool × Redis
renew_lock worker ttl shard w =
    if is_owner worker (live_lock w.now (w.redis.locks shard))
    then (true, set_lock shard (some (new_lock worker ttl w.now)) w.redis)
    else (false, w.redis)

unfoldable pub release_lock : Text → ℕ → World → Bool × Redis
release_lock worker shard w =
    if is_owner worker (live_lock w.now (w.redis.locks shard))
    then (true, set_lock shard none w.redis)
    else (false, w.redis)

abbrev pub owns : ℕ → List ℕ → Bool
owns shard owned = any (λ s. s == shard) owned

abbrev pub drop_shard : ℕ → List ℕ → List ℕ
drop_shard shard owned = select (λ s. not (s == shard)) owned

module _ (worker : Text) (ttl : ℕ) where
  abbrev pub after_claim : ℕ → List ℕ → Bool → List ℕ
  after_claim shard owned true = owned ++ shard ∷ []
  after_claim shard owned false = owned

  -- The body of the loop of `claimAvailableShards`.
  unfoldable pub claim_shard : ℕ → List ℕ → M (List ℕ)
  unfolding claim_lock
  claim_shard shard owned =
      if owns shard owned
      then pure owned
      else try_catch
          (do
            acquired ← command (claim_lock worker ttl shard)
            pure (after_claim shard owned acquired))
          (pure owned)

  -- From a shard on, with this many rounds to go.
  unfoldable pub claim_from : ℕ → ℕ → List ℕ → M (List ℕ)
  claim_from shard zero owned = pure owned
  claim_from shard (suc rounds) owned = do
    more ← claim_shard shard owned
    claim_from (shard + 1) rounds more

  unfoldable pub claim_available_shards : ℕ → List ℕ → M (List ℕ)
  unfolding claim_from
  claim_available_shards shard_count owned = claim_from 0 shard_count owned

  abbrev pub after_renewal : ℕ → List ℕ → Bool → List ℕ
  after_renewal shard owned true = owned
  after_renewal shard owned false = drop_shard shard owned

  -- The body of the loop of `heartbeat`: an error keeps the shard.
  unfoldable pub renew_shard : ℕ → List ℕ → M (List ℕ)
  unfolding renew_lock
  renew_shard shard owned =
      try_catch
        (do
          renewed ← command (renew_lock worker ttl shard)
          pure (after_renewal shard owned renewed))
        (pure owned)

  unfoldable pub renew_all : List ℕ → List ℕ → M (List ℕ)
  renew_all [] owned = pure owned
  renew_all (shard ∷ shards) owned = do left ← renew_shard shard owned; renew_all shards left

  unfoldable pub heartbeat : ℕ → List ℕ → M (List ℕ)
  unfolding renew_all claim_available_shards
  heartbeat shard_count owned = do
    left ← renew_all owned owned
    claim_available_shards shard_count left

-- The loop of `releaseAll`; afterwards the worker owns nothing.
unfoldable pub release_shards : Text → List ℕ → M (List ℕ)
unfolding release_lock
release_shards worker [] = pure []
release_shards worker (shard ∷ shards) = do
  try_catch (do released ← command (release_lock worker shard); pure tt) (pure tt)
  release_shards worker shards

-- `Array.from(ownedShards).sort(…)`.
unfoldable pub get_owned_shards : List ℕ → List ℕ
get_owned_shards owned = sort_by (λ s. s) owned
