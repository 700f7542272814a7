-- ===== src/StreamQueue/Entries.antt =====
-- `parseRawEntries` of backend/src/redis/streamQueue.ts: the fields of an entry, as `publish` writes them
-- and as they are read back. `uuid_text` writes an identifier.
use event_relay.Base.{
  ℕ, ◌≡◌, refl, if◌then◌else◌, Option, none, some, List, [], ◌∷◌, Text, codes, text_eq,
}
use event_relay.Base.Decimal.{decimal, parse_int, parse_int-decimal, leading_digits}
use event_relay.Store.{DeliveryJob}

-- An entry of Redis's answer; `malformed` is one that is no pair with an array of fields, such as that of
-- a message that was deleted.
pub data RawEntry : Type 0 where
  entry : ℕ → List Text → RawEntry
  malformed : RawEntry

-- The `job` of a message: a field that is missing is undefined, and `none` in the number is NaN.
pub record JobFields : Type 0 where
  pub delivery_id : Option Text
  pub event_id : Option Text
  pub endpoint_id : Option Text
  pub attempt_number : Option ℕ

-- A `StreamMessage` as it is read.
pub record ReadMessage : Type 0 where
  pub message_id : ℕ
  pub stream_name : Text
  pub fields : JobFields

-- What the loop over the fields leaves at a key: the last value wins, and a name with no value after it
-- sets undefined.
unfoldable pub field : Text → Option Text → List Text → Option Text
field name found [] = found
field name found (k ∷ []) = if text_eq k name then none else found
field name found (k ∷ v ∷ rest) = field name (if text_eq k name then some v else found) rest

-- `fieldMap.attemptNumber || '1'`.
abbrev pub or_one : Option Text → Text
or_one none = codes "1"
or_one (some []) = codes "1"
or_one (some (c ∷ s)) = c ∷ s

unfoldable pub read_job : List Text → JobFields
unfolding field
read_job fields = record {
  delivery_id = field (codes "deliveryId") none fields;
  event_id = field (codes "eventId") none fields;
  endpoint_id = field (codes "endpointId") none fields;
  attempt_number = parse_int (or_one (field (codes "attemptNumber") none fields));
}

unfoldable pub parse_raw_entries : Text → List RawEntry → List ReadMessage
unfolding read_job
parse_raw_entries stream_name [] = []
parse_raw_entries stream_name (malformed ∷ rest) = parse_raw_entries stream_name rest
parse_raw_entries stream_name (entry id fields ∷ rest) =
    record { message_id = id; stream_name = stream_name; fields = read_job fields }
    ∷ parse_raw_entries stream_name rest

module _ (uuid_text : ℕ → Text) where
  -- The arguments of XADD after the `*`.
  unfoldable pub published_fields : Text → DeliveryJob → List Text
  published_fields stream job =
      codes "deliveryId"
      ∷ uuid_text job.delivery_id
      ∷ codes "eventId"
      ∷ uuid_text job.event_id
      ∷ codes "endpointId"
      ∷ uuid_text job.endpoint_id
      ∷ codes "attemptNumber"
      ∷ decimal job.attempt_number
      ∷ codes "streamName"
      ∷ stream
      ∷ []

  -- The job, in the form in which it is read.
  abbrev pub written : DeliveryJob → JobFields
  written job = record {
    delivery_id = some (uuid_text job.delivery_id);
    event_id = some (uuid_text job.event_id);
    endpoint_id = some (uuid_text job.endpoint_id);
    attempt_number = some job.attempt_number;
  }

  number_read : (s : Text) (n : ℕ) → parse_int s ≡ some n → parse_int (or_one (some s)) ≡ some n
  unfolding parse_int leading_digits
  number_read [] n e = cc
  number_read (c ∷ s) n e = e

  pub read_job-published :
      (stream : Text) (job : DeliveryJob) → read_job (published_fields stream job) ≡ written job
  unfolding read_job published_fields
  read_job-published stream job =
      rw
        (number_read (decimal job.attempt_number) job.attempt_number
          (parse_int-decimal job.attempt_number))
        refl

  -- The answer of Redis for entries that `publish` added, where those that are `none` were deleted.
  abbrev pub raw_entries : Text → List (Option (ℕ × DeliveryJob)) → List RawEntry
  raw_entries stream [] = []
  raw_entries stream (none ∷ rest) = malformed ∷ raw_entries stream rest
  raw_entries stream (some (id, job) ∷ rest) =
      entry id (published_fields stream job) ∷ raw_entries stream rest

  abbrev pub messages_of : Text → List (Option (ℕ × DeliveryJob)) → List ReadMessage
  messages_of stream [] = []
  messages_of stream (none ∷ rest) = messages_of stream rest
  messages_of stream (some (id, job) ∷ rest) =
      record { message_id = id; stream_name = stream; fields = written job }
      ∷ messages_of stream rest

  -- Of entries that `publish` added, `parseRawEntries` returns the jobs that were published, each with
  -- its identifier and in order, and skips the entries that were deleted.
  pub parse_raw_entries-published :
      (stream : Text) (es : List (Option (ℕ × DeliveryJob)))
      → parse_raw_entries stream (raw_entries stream es) ≡ messages_of stream es
  unfolding parse_raw_entries
  parse_raw_entries-published stream [] = refl
  parse_raw_entries-published stream (none ∷ rest) = parse_raw_entries-published stream rest
  parse_raw_entries-published stream (some (id, job) ∷ rest) =
      rw (read_job-published stream job, parse_raw_entries-published stream rest) refl
