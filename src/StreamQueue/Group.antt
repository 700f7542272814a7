-- ===== src/StreamQueue/Group.antt =====
-- A consumer group of Redis, by its documentation: the commands that backend/src/redis/streamQueue.ts sends
-- it, on the streams of the World. A message is new until it is handed out to a consumer, and pending until
-- it is acknowledged. `uuid_text` writes an identifier.
use event_relay.Base.{
  ℕ, ◌+◌, ◌*◌, Bool, not, ◌&&◌, ◌==◌, leb, if◌then◌else◌, Option, none, some, List, [], ◌∷◌, ◌++◌,
  map, any, all, select, take, update, Text, text_eq,
}
use event_relay.Store.{Redis, Claim, StreamMessage, has_text, ok, thrown, call}
use event_relay.StreamQueue.Entries.{RawEntry, entry, published_fields}
use event_relay.StreamQueue.Reads.{Commands}

abbrev pub is_claim_of : StreamMessage → Claim → Bool
is_claim_of e c = text_eq c.stream_name e.stream_name && c.message_id == e.message_id

abbrev pub is_claimed : List Claim → StreamMessage → Bool
is_claimed claims e = any (is_claim_of e) claims

abbrev pub claim_by : Text → ℕ → StreamMessage → Claim
claim_by consumer now e = record {
  stream_name = e.stream_name;
  message_id = e.message_id;
  consumer = consumer;
  claimed_at = now;
}

-- The messages of a stream after the last one that was handed out.
abbrev pub is_new : Text → Redis → StreamMessage → Bool
is_new stream redis e = text_eq e.stream_name stream && not (is_claimed redis.claims e)

unfoldable pub read_one : Text → Text → ℕ → ℕ → Redis → List StreamMessage × Redis
read_one consumer stream count now redis =
    let taken = take count (select (is_new stream redis) redis.entries) in
    (taken, record redis { claims = map (claim_by consumer now) taken ++ redis.claims })

abbrev pub is_acknowledged : Redis → StreamMessage → Bool
is_acknowledged redis e =
    any (λ (a : Text × ℕ). text_eq a.0 e.stream_name && a.1 == e.message_id) redis.acknowledged

-- Handed out and not acknowledged.
abbrev pub is_pending : Text → Redis → StreamMessage → Bool
is_pending stream redis e =
    text_eq e.stream_name stream && (is_claimed redis.claims e && not (is_acknowledged redis e))

abbrev pub pending : Text → Redis → List StreamMessage
pending stream redis = select (is_pending stream redis) redis.entries

-- Handed out at least `min_idle` ago.
abbrev pub is_idle : ℕ → ℕ → StreamMessage → Claim → Bool
is_idle now min_idle e c = is_claim_of e c && leb (c.claimed_at + min_idle) now

abbrev pub is_stranded : Text → ℕ → ℕ → Redis → StreamMessage → Bool
is_stranded stream now min_idle redis e =
    is_pending stream redis e && any (is_idle now min_idle e) redis.claims

-- Redis looks at the first 10 * count pending messages only.
abbrev pub stranded : Text → ℕ → ℕ → ℕ → Redis → List StreamMessage
stranded stream now min_idle count redis =
    select (is_stranded stream now min_idle redis) (take (10 * count) (pending stream redis))

abbrev pub reclaimed : Text → ℕ → Claim → Claim
reclaimed consumer now c = record c { consumer = consumer; claimed_at = now }

-- `XAUTOCLAIM stream group consumer min-idle-time 0-0 COUNT count`.
unfoldable pub claim_stranded : Text → Text → ℕ → ℕ → ℕ → Redis → List StreamMessage × Redis
claim_stranded stream consumer min_idle count now redis =
    let taken = take count (stranded stream now min_idle count redis) in
    (
      taken,
      record redis {
        claims =
            update (λ c. any (λ e. is_claim_of e c) taken) (reclaimed consumer now) redis.claims;
      },
    )

module _ (uuid_text : ℕ → Text) where
  -- An entry with the fields that `publish` gave it.
  abbrev pub raw_entry : StreamMessage → RawEntry
  raw_entry e = entry e.message_id (published_fields uuid_text e.stream_name e.job)

  -- A stream with nothing new is left out, and the answer is nil if all are.
  abbrev pub with_new :
      Text → List StreamMessage → List (Text × List RawEntry) → List (Text × List RawEntry)
  with_new stream [] rest = rest
  with_new stream (e ∷ es) rest = (stream, map raw_entry (e ∷ es)) ∷ rest

  abbrev pub or_nil : List (Text × List RawEntry) → Option (List (Text × List RawEntry))
  or_nil [] = none
  or_nil (r ∷ rs) = some (r ∷ rs)

  -- COUNT is for each stream.
  unfoldable pub read_each : Text → List Text → ℕ → ℕ → Redis → List (Text × List RawEntry) × Redis
  unfolding read_one
  read_each consumer [] count now redis = ([], redis)
  read_each consumer (stream ∷ streams) count now redis =
      let (messages, next) = read_one consumer stream count now redis in
      let (rest, last) = read_each consumer streams count now next in
      (with_new stream messages rest, last)

  -- Both are errors if a stream has no group.
  unfoldable pub group_commands : Commands
  unfolding read_each claim_stranded
  group_commands = record {
    xreadgroup = λ consumer streams count. call (λ w.
        if all (λ s. has_text s w.redis.groups) streams
        then (let (replies, redis) = read_each consumer streams count w.now w.redis in
            (ok (or_nil replies), record w { redis = redis }))
        else (thrown, w));
    xautoclaim = λ stream consumer min_idle count. call (λ w.
        if has_text stream w.redis.groups
        then (let (messages, redis) = claim_stranded stream consumer min_idle count w.now w.redis in
            (ok (some (map raw_entry messages)), record w { redis = redis }))
        else (thrown, w));
  }
