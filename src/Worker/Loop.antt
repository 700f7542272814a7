-- ===== src/Worker/Loop.antt =====
-- backend/src/worker/deliveryWorker.ts: `start` and `stop`, round by round. The heartbeat of the leases runs
-- beside the loop, so each round is given the shards that the worker then takes itself to own.
use event_relay.Base.{
  ℕ, ◌+◌, ◌^◌, map, Bool, true, false, ◌||◌, if◌then◌else◌, Option, none, some, List, [], ◌∷◌,
  get_elem?, Text,
}
use event_relay.Store.{StreamMessage, M, ◌>>=◌, ◌>>◌, pure, modify, try_catch}
use event_relay.Partitioner.{get_all_shard_streams, default_shard_count}
use event_relay.StreamQueue.Entries.{ReadMessage}
use event_relay.StreamQueue.Reads.{Commands, auto_claim_pending, read_shard_messages}
use event_relay.Lease.{claim_available_shards, release_shards}
use event_relay.Worker.{Env, process_job}

-- `setTimeout`.
abbrev pub sleep : ℕ → M (Unit {0})
sleep ms = modify (λ w. record w { now = w.now + ms })

abbrev pub is_some_message : List ReadMessage → Bool
is_some_message [] = false
is_some_message (m ∷ ms) = true

-- A number that is not one is below no limit of retries.
abbrev pub or_beyond : Option ℕ → ℕ
or_beyond none = 2 ^ 31
or_beyond (some n) = n

-- The message with the identifiers that its texts write; `uuid_number` has one that no row has for a field
-- that is undefined.
abbrev pub to_message : (Option Text → ℕ) → ReadMessage → StreamMessage
to_message uuid_number m = record {
  message_id = m.message_id;
  stream_name = m.stream_name;
  job = record {
    delivery_id = uuid_number m.fields.delivery_id;
    event_id = uuid_number m.fields.event_id;
    endpoint_id = uuid_number m.fields.endpoint_id;
    attempt_number = or_beyond m.fields.attempt_number;
  };
}

abbrev pub stream_at : Text → Option Text → Text
stream_at base none = base
stream_at base (some []) = base
stream_at base (some (c ∷ s)) = c ∷ s

-- `shardStreams[shardId] || config.streamName`.
unfoldable pub target_stream : Text → ℕ → Text
target_stream base shard =
    stream_at base (get_elem? (get_all_shard_streams default_shard_count base) shard)

module _ (env : Env) where
  -- The jobs of one read, one after the other.
  unfoldable pub process_all : List StreamMessage → M (Unit {0})
  process_all [] = pure tt
  process_all (m ∷ ms) = do process_job env m.message_id m.stream_name m.job; process_all ms

module _ (env : Env) (redis : Commands) (uuid_number : Option Text → ℕ) (worker : Text) where
  -- What is reclaimed from a stream comes before what is new on it: whether there was any message.
  unfoldable pub poll_stream : Text → ℕ → ℕ → M Bool
  unfolding process_all
  poll_stream stream claim_count read_count = do
    claimed ← auto_claim_pending redis stream worker 30000 claim_count
    process_all env (map (to_message uuid_number) claimed)
    messages ← read_shard_messages redis stream worker read_count
    process_all env (map (to_message uuid_number) messages)
    pure (is_some_message claimed || is_some_message messages)

  -- `running` says whether the worker is still to run when the loop comes to a shard.
  unfoldable pub poll_shards : (ℕ → Bool) → List ℕ → M Bool
  unfolding poll_stream target_stream
  poll_shards running [] = pure false
  poll_shards running (shard ∷ shards) =
      if running shard
      then (do
        had ← poll_stream (target_stream env.base_stream shard) 5 5
        more ← poll_shards running shards
        pure (had || more))
      else pure false

  -- The `try` of a round.
  unfoldable pub poll_once : (ℕ → Bool) → List ℕ → M (Unit {0})
  unfolding poll_shards
  poll_once running [] = sleep 300
  poll_once running (shard ∷ shards) = do
    had ← poll_shards running (shard ∷ shards)
    base_had ← poll_stream env.base_stream 5 10
    if had || base_had then pure tt else sleep 50

  -- A round: an error is logged, and the loop goes on.
  unfoldable pub round : (ℕ → Bool) → List ℕ → M (Unit {0})
  unfolding poll_once
  round running owned = try_catch (poll_once running owned) (sleep 500)

  -- The rounds up to `stop`.
  unfoldable pub rounds : List ((ℕ → Bool) × List ℕ) → M (Unit {0})
  unfolding round
  rounds [] = pure tt
  rounds ((running, owned) ∷ rest) = do round running owned; rounds rest

  -- `start`: the leases that are free are claimed first.
  unfoldable pub start : ℕ → ℕ → List ((ℕ → Bool) × List ℕ) → M (Unit {0})
  unfolding rounds
  start ttl shard_count plan = do claim_available_shards worker ttl shard_count []; rounds plan

-- `stop`, after which the worker owns nothing.
unfoldable pub stop : Text → List ℕ → M (List ℕ)
stop worker owned = release_shards worker owned
