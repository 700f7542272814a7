-- ===== src/StreamQueue/Reads.antt =====
-- The reads of backend/src/redis/streamQueue.ts, and the groups that they need.
use event_relay.Base.{ℕ, if◌then◌else◌, Option, none, some, List, [], ◌∷◌, ◌++◌, Text}
use event_relay.Store.{has_text, ok, thrown, M, ◌>>=◌, ◌>>◌, pure, call, try_catch}
use event_relay.Partitioner.{get_all_shard_streams, default_shard_count}
use event_relay.StreamQueue.Entries.{RawEntry, ReadMessage, parse_raw_entries}

-- The commands of Redis, with their answers: `none` is one that is nil, no array, or shorter than it is to
-- be. `xreadgroup` has a consumer, the streams and the count for each; `xautoclaim` a stream, a consumer, the
-- idle time and the count.
pub record Commands : Type 0 where
  pub xreadgroup : Text → List Text → ℕ → M (Option (List (Text × List RawEntry)))
  pub xautoclaim : Text → Text → ℕ → ℕ → M (Option (List RawEntry))

-- `parseRawEntries` for each stream of the answer.
abbrev pub parse_streams : List (Text × List RawEntry) → List ReadMessage
parse_streams [] = []
parse_streams ((stream, entries) ∷ rest) = parse_raw_entries stream entries ++ parse_streams rest

abbrev pub messages_read : Option (List (Text × List RawEntry)) → List ReadMessage
messages_read none = []
messages_read (some replies) = parse_streams replies

-- The checks of the response of XAUTOCLAIM, and its second part.
abbrev pub messages_claimed : Text → Option (List RawEntry) → List ReadMessage
messages_claimed stream none = []
messages_claimed stream (some entries) = parse_raw_entries stream entries

-- `allStreams`.
unfoldable pub all_streams : Text → List Text
all_streams base = base ∷ get_all_shard_streams default_shard_count base

module _ (redis : Commands) where
  -- `readShardMessages`.
  unfoldable pub read_shard_messages : Text → Text → ℕ → M (List ReadMessage)
  read_shard_messages stream consumer count =
      try_catch
        (do response ← redis.xreadgroup consumer (stream ∷ []) count; pure (messages_read response))
        (pure [])

  -- `readMessages`.
  unfoldable pub read_messages : Text → Text → ℕ → M (List ReadMessage)
  unfolding all_streams
  read_messages base consumer count =
      try_catch
        (do
          response ← redis.xreadgroup consumer (all_streams base) count
          pure (messages_read response))
        (pure [])

  -- `autoClaimPending`.
  unfoldable pub auto_claim_pending : Text → Text → ℕ → ℕ → M (List ReadMessage)
  auto_claim_pending stream consumer min_idle count =
      try_catch
        (do
          response ← redis.xautoclaim stream consumer min_idle count
          pure (messages_claimed stream response))
        (pure [])

-- `XGROUP CREATE stream group 0 MKSTREAM`: an error if the group is there.
abbrev pub create_group : Text → M (Unit {0})
create_group stream = call (λ w.
    if has_text stream w.redis.groups
    then (thrown, w)
    else (ok tt, record w { redis = record (w.redis) { groups = stream ∷ w.redis.groups } }))

-- The loop of `initGroup`.
unfoldable pub init_groups : List Text → M (Unit {0})
init_groups [] = pure tt
init_groups (stream ∷ streams) = do try_catch (create_group stream) (pure tt); init_groups streams

unfoldable pub init_group : Text → M (Unit {0})
unfolding init_groups all_streams
init_group base = init_groups (all_streams base)
