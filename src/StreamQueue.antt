-- ===== src/StreamQueue.antt =====
-- backend/src/redis/streamQueue.ts: the writes to the Redis streams. The entries of all streams
-- stand in one list, in the order in which they were added.
pub mod Entries
pub mod Reads
pub mod Group
pub mod Fresh
pub mod Reclaimed
mod Tests
use event_relay.Base.{◌+◌, Option, [], ◌∷◌, ◌++◌, Text, ℕ}
use event_relay.Store.{World, DeliveryJob, StreamMessage, Result, ok, M, call}
use event_relay.Partitioner.{get_shard_stream_name, default_shard_count}

-- `XADD stream * …`: the entry gets an identifier of its own.
unfoldable pub add_entry : Text → DeliveryJob → World → Result StreamMessage × World
add_entry stream job w =
    let entry : StreamMessage = record {
      message_id = w.message_id w.drawn;
      stream_name = stream;
      job = job;
    } in
    (
      ok entry,
      record w {
        redis = record (w.redis) { entries = w.redis.entries ++ entry ∷ [] };
        drawn = w.drawn + 1;
      },
    )

unfoldable pub publish : Text → DeliveryJob → Option Text → M StreamMessage
unfolding add_entry
publish base_stream job ordering_key =
    call (add_entry (get_shard_stream_name default_shard_count ordering_key base_stream) job)

-- `streamName || this.baseStream`.
abbrev pub stream_or : Text → Text → Text
stream_or [] base = base
stream_or (c ∷ s) base = c ∷ s

abbrev pub acknowledge_entry : Text → ℕ → World → Result (Unit {0}) × World
acknowledge_entry stream message_id w = (
  ok tt,
  record w {
    redis = record (w.redis) { acknowledged = (stream, message_id) ∷ w.redis.acknowledged };
  },
)

unfoldable pub acknowledge : Text → Text → ℕ → M (Unit {0})
acknowledge base_stream stream_name message_id =
    call (acknowledge_entry (stream_or stream_name base_stream) message_id)
