-- ===== src/Store/State.antt =====
-- What the handlers share: the database, the Redis streams and hashes, the metrics, the clock, the
-- requests sent to endpoints, and the environment that decides which outside calls fail.
use event_relay.Base.{ℕ, Bool, Option, List, Text}
use event_relay.Base.Int.{ℤ}
use event_relay.Store.Schema.{Database}

-- `DeliveryJob`.
pub record DeliveryJob : Type 0 where
  pub delivery_id : ℕ
  pub event_id : ℕ
  pub endpoint_id : ℕ
  pub attempt_number : ℕ

-- `StreamMessage`: an entry of a stream.
pub record StreamMessage : Type 0 where
  pub message_id : ℕ
  pub stream_name : Text
  pub job : DeliveryJob

-- A `ratelimit:` hash: the tokens in thousandths, the time of the refill, the end of its life.
pub record Bucket : Type 0 where
  pub key : Text
  pub milli_tokens : ℤ
  pub last_refill : ℕ
  pub expires_at : ℕ

-- A `lock:shard:` key: its value, and the end of its life.
pub record Lock : Type 0 where
  pub owner : Text
  pub expires_at : ℕ

-- An entry of a stream that the consumer group has handed out: to whom, and when.
pub record Claim : Type 0 where
  pub stream_name : Text
  pub message_id : ℕ
  pub consumer : Text
  pub claimed_at : ℕ

-- `groups` has the streams that have the consumer group, `claims` what it has handed out, and
-- `acknowledged` what was acknowledged to it. `locks` gives the key of each shard.
pub record Redis : Type 0 where
  pub entries : List StreamMessage
  pub groups : List Text
  pub claims : List Claim
  pub acknowledged : List (Text × ℕ)
  pub buckets : List Bucket
  pub locks : ℕ → Option Lock

-- The fields of `MetricsRegistry`. Latencies are in milliseconds; `latency_histogram` has a bound
-- with its count for each bucket, in the order of `latencyBuckets`.
pub record Metrics : Type 0 where
  pub events_ingested : List (Text × ℕ)
  pub deliveries_total : List (Text × ℕ)
  pub dlq_total : ℕ
  pub rate_limiter_errors : ℕ
  pub latency_histogram : List (ℕ × ℕ)
  pub latency_sum : ℕ
  pub latency_count : ℕ
  pub circuit_states : List (ℕ × ℕ)

-- A request that went out to an endpoint.
pub record Post : Type 0 where
  pub url : Text
  pub payload : Text
  pub headers : List (Text × Text)
  pub timeout : ℕ

-- `LocalBucket` of middleware/rateLimit.ts, with its tokens in thousandths.
pub record LocalBucket : Type 0 where
  pub milli_tokens : ℤ
  pub last_refill : ℕ

-- `local_buckets` is the map of the same name. `faults` says of each outside call to come whether it throws; an empty list is an environment in
-- which no more call fails. `uuid` and `message_id` are the identifiers that PostgreSQL and Redis
-- hand out, by the number of those drawn so far.
pub record World : Type 0 where
  pub db : Database
  pub redis : Redis
  pub metrics : Metrics
  pub local_buckets : Text → Option LocalBucket
  pub posts : List Post
  pub now : ℕ
  pub faults : List Bool
  pub uuid : ℕ → ℕ
  pub message_id : ℕ → ℕ
  pub drawn : ℕ
