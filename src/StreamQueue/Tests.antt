-- ===== src/StreamQueue/Tests.antt =====
-- backend/src/redis/streamQueue.ts: a message that one worker takes, does not acknowledge, and another takes.
use event_relay.Base.{◌≡◌, arith, some, none, [], ◌∷◌, Text, codes}
use event_relay.Base.Decimal.{decimal}
use event_relay.Store.{World, Claim, StreamMessage}
use event_relay.Store.Atomic.{Ends}
use event_relay.Sample.{world, job}
use event_relay.StreamQueue.Entries.{
  parse_raw_entries, raw_entries, messages_of, parse_raw_entries-published,
}
use event_relay.StreamQueue.Reads.{read_shard_messages, auto_claim_pending}
use event_relay.StreamQueue.Group.{group_commands}
use event_relay.StreamQueue.Fresh.{Fresh, read_shard_messages-Fresh}
use event_relay.StreamQueue.Reclaimed.{Recovered, auto_claim_pending-Recovered}

abbrev stream : Text
stream = codes "deliveries:shard:3"

abbrev message : StreamMessage
message = record { message_id = 1000; stream_name = stream; job = job }

abbrev queued : World
queued = record world {
  redis = record (world.redis) { entries = message ∷ []; groups = stream ∷ [] };
}

-- The worker took it 40 seconds ago.
abbrev taken : Claim
taken = record {
  stream_name = stream;
  message_id = 1000;
  consumer = codes "worker-1";
  claimed_at = 960000;
}

abbrev crashed : World
crashed = record queued { redis = record (queued.redis) { claims = taken ∷ [] } }

parse_raw_entries-published_example :
    parse_raw_entries stream (raw_entries decimal stream (some (1000, job) ∷ none ∷ []))
    ≡ messages_of decimal stream (some (1000, job) ∷ none ∷ [])
parse_raw_entries-published_example =
    parse_raw_entries-published decimal stream (some (1000, job) ∷ none ∷ [])

read_shard_messages-Fresh_example :
    Ends
      (Fresh decimal stream (codes "worker-1") 5 queued)
      (λ v. ⊥)
      (read_shard_messages (group_commands decimal) stream (codes "worker-1") 5 queued)
read_shard_messages-Fresh_example =
    read_shard_messages-Fresh decimal stream (codes "worker-1") 5 queued

auto_claim_pending-Recovered_example :
    Ends
      (Recovered decimal stream (codes "worker-2") 30000 5 crashed)
      (λ v. ⊥)
      (auto_claim_pending (group_commands decimal) stream (codes "worker-2") 30000 5 crashed)
auto_claim_pending-Recovered_example =
    auto_claim_pending-Recovered decimal stream (codes "worker-2") 30000 5 crashed (omega arith)
