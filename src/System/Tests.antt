-- ===== src/System/Tests.antt =====
-- Histories with failures.
use event_relay.Base.{
  ℕ, ◌≡◌, ◌≤◌, ◌+◌, refl, none, some, true, false, List, [], ◌∷◌, length, All, codes, arith,
}
use event_relay.Store.{World, ok}
use event_relay.Sample.{world, env}
use event_relay.Outbox.Empties.{unlocked}
use event_relay.Outbox.Delivered.{drains}
use event_relay.Ingest.{IngestRequest, created, ingest_event}
use event_relay.Ingest.Atomic.{targets}
use event_relay.Ingest.Streamed.{Streamed}
use event_relay.System.History.{
  Act, posted, drained, waited, disturbed, history, calmed, posted_between, history-Streamed,
}

abbrev empty_world : World
empty_world = record world { db = record (world.db) { outbox = [] } }

abbrev paid : IngestRequest
paid = record {
  event_type = codes "order.paid";
  payload = codes "{}";
  endpoint_ids = none;
  ordering_key = none;
}

-- A post that is refused, the event, and a drain that comes to nothing.
abbrev refused_first : List Act
refused_first = disturbed (true ∷ []) ∷ posted (some (b'k' ∷ codes "0")) (some paid) ∷ []

abbrev drained_in_vain : List Act
drained_in_vain = waited 1000 ∷ disturbed (false ∷ true ∷ []) ∷ drained unlocked ∷ []

numbers_apart : (i j : ℕ) → i + 100 ≡ j + 100 → i ≡ j
numbers_apart i j e = omega (arith, e)

answered_created :
    (ingest_event (some (b'k' ∷ codes "1")) (some paid) (history env refused_first empty_world)).0
    ≡ ok (created 100 1)
unfolding ingest_event event_relay.Store.Effects.with_transaction event_relay.Metrics.inc_ingested
    event_relay.Ingest.insert_delivery event_relay.Outbox.insert_outbox history
answered_created = refl

one_row :
    length
      (posted_between env refused_first drained_in_vain empty_world b'k' (codes "1") paid).db.outbox
    ≤ 1
unfolding ingest_event event_relay.Store.Effects.with_transaction event_relay.Metrics.inc_ingested
    event_relay.Ingest.insert_delivery event_relay.Outbox.insert_outbox history
one_row = omega arith

history-Streamed_example :
    All
      (Streamed env.base_stream 100 none (
        drains env.base_stream 1 (
          calmed
            (posted_between env refused_first drained_in_vain empty_world b'k' (codes "1") paid))))
      (targets paid (history env refused_first empty_world).db)
history-Streamed_example =
    history-Streamed env refused_first drained_in_vain empty_world b'k' (codes "1") paid 100 1 1
      numbers_apart refl answered_created one_row
