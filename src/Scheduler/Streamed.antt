-- ===== src/Scheduler/Streamed.antt =====
-- From `pollAndReenqueue` of backend/src/worker/retryScheduler.ts over `drain` of
-- backend/src/worker/outboxPublisher.ts to the streams.
use event_relay.Base.{
  ℕ, ◌≤◌, ◌≡◌, ◌≢◌, refl, sym, ap, ◌∙◌, ◌⊎◌, inl, inr, false, Bool, List, [], ◌∷◌, length, All,
  All-imp, Any, Any-imp, Any-append_left, Any-append_right, Text, or_null,
}
use event_relay.Partitioner.{get_shard_stream_name, default_shard_count}
use event_relay.Store.{World, Database, OutboxRecord, Result, ok}
use event_relay.Outbox.{job_of}
use event_relay.Outbox.Batch.{sent}
use event_relay.Outbox.NoLoss.{Holds, OwnId}
use event_relay.Outbox.Delivered.{drains, drains_reach}
use event_relay.Scheduler.{DueRow, Polled, poll_and_reenqueue}
use event_relay.Scheduler.Rows.{limit, next_attempt, Moved, AllMoved}
use event_relay.Scheduler.Poll.{claimed, Polls, poll_and_reenqueue-Polls}

-- The attempts of the row's delivery are used up, or an outbox row announces the next one.
abbrev Queued : Database → DueRow → Type 0
Queued db row =
    (limit row ≤ row.attempt_number)
    ⊎ ((o : OutboxRecord) × (job_of o ≡ next_attempt row)
        × (o.ordering_key ≡ or_null row.ordering_key)
        × Holds o db.outbox)

Moved-Holds :
    (o : OutboxRecord) (row : DueRow) (db db' : Database)
    → Moved row db db'
    → Holds o db.outbox
    → Holds o db'.outbox
Moved-Holds o row db db' (inl (over, same)) h = rw (ap (λ (b : Database). b.outbox) same) h
Moved-Holds o row db db' (inr (under, (x, job, key, same))) h =
    rw (ap (λ (b : Database). b.outbox) same) (Any-append_left (λ y. y ≡ o) db.outbox (x ∷ []) h)

AllMoved-Holds :
    (o : OutboxRecord) (rows : List DueRow) (db db' : Database)
    → AllMoved rows db db'
    → Holds o db.outbox
    → Holds o db'.outbox
AllMoved-Holds o [] db db' same h = rw same h
AllMoved-Holds o (row ∷ rows) db db' (between, moved, rest) h =
    AllMoved-Holds o rows between db' rest (Moved-Holds o row db between moved h)

AllMoved-Queued :
    (rows : List DueRow) (db db' : Database) → AllMoved rows db db' → All (Queued db') rows
AllMoved-Queued [] db db' same = tt
AllMoved-Queued (row ∷ rows) db db' (between, inl (over, same), rest) =
    (inl over, AllMoved-Queued rows between db' rest)
AllMoved-Queued (row ∷ rows) db db' (between, inr (under, (o, job, key, same)), rest) = (
  inr (
    o,
    job,
    key,
    AllMoved-Holds o rows between db' rest (
        rw (ap (λ (b : Database). b.outbox) same)
          (Any-append_right (λ y. y ≡ o) db.outbox (o ∷ []) (inl refl))),
  ),
  AllMoved-Queued rows between db' rest,
)

-- The attempts are used up, or the job of the next one stands on the stream of the ordering key.
abbrev pub Retried : Text → World → DueRow → Type 0
Retried base w row =
    (limit row ≤ row.attempt_number)
    ⊎ Any
        (λ m. m ≡ (
          get_shard_stream_name default_shard_count (or_null row.ordering_key) base,
          next_attempt row,
        ))
        (sent w)

ok_injective : {x y : Polled} → ◌≡◌ {A = Result Polled} (ok x) (ok y) → x ≡ y
ok_injective e = cc

module _ (base : Text) (n : ℕ) (later : World) (calm : later.faults ≡ [])
    (own : All (λ o. OwnId o later.db.outbox) later.db.outbox)
    (enough : length later.db.outbox ≤ n) where
  Queued-Retried : (row : DueRow) → Queued later.db row → Retried base (drains base n later) row
  Queued-Retried row (inl over) = inl over
  Queued-Retried row (inr (o, job, key, held)) = inr (
      Any-imp _ _ (sent (drains base n later))
        (λ m e. e ∙ (λ i. (get_shard_stream_name default_shard_count (key i) base, job i)))
        (drains_reach base n later o calm enough own held))

  -- A retry that fell due reaches the streams: once a poll took some rows, at any later moment with the
  -- tables as the poll left them, where no call fails, the identifiers of the rows of the outbox are
  -- distinct and no other transaction holds a row, as many drains as the outbox has rows, or more, leave
  -- for each row that the poll claimed, unless its attempts are used up, a job for its delivery, event
  -- and endpoint on the stream of its ordering key, with its attempt number and one.
  pub polled-Retried :
      (locked : ℕ → Bool) (w : World) (polled : Polled)
      → (poll_and_reenqueue false locked w).0 ≡ ok polled
      → polled.processed ≢ 0
      → later.db ≡ (poll_and_reenqueue false locked w).1.db
      → All (Retried base (drains base n later)) (claimed locked w)
  polled-Retried locked w polled returned some_taken same = go (poll_and_reenqueue-Polls locked w)
    where
      go :
          Polls locked w (poll_and_reenqueue false locked w)
          → All (Retried base (drains base n later)) (claimed locked w)
      go (p, e, idle, poked, inl (count, moved)) =
          All-imp (Queued later.db) (Retried base (drains base n later)) (claimed locked w)
            Queued-Retried (AllMoved-Queued (claimed locked w) w.db later.db (rw same moved))
      go (p, e, idle, poked, inr (none_taken, unchanged)) = absurd (
          some_taken
            (ap (λ (x : Polled). x.processed) (ok_injective (sym returned ∙ e)) ∙ none_taken))
