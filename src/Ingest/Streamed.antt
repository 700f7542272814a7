-- ===== src/Ingest/Streamed.antt =====
-- From `ingestEvent` of backend/src/api/eventsController.ts over `drain` of
-- backend/src/worker/outboxPublisher.ts to the streams.
use mathlib.Core.Path.{subst}
use event_relay.Base.{
  ℕ, ◌≤◌, ◌≡◌, refl, sym, ap, ◌∙◌, inl, inr, Option, some, List, [], ◌∷◌, length, All, Any, Any-imp,
  Any-append_right, Text, or_null,
}
use event_relay.Partitioner.{get_shard_stream_name, default_shard_count}
use event_relay.Store.{World, Database, Endpoint, Delivery, OutboxRecord, DeliveryJob, Result, ok}
use event_relay.Outbox.{job_of}
use event_relay.Outbox.Batch.{sent, to_send}
use event_relay.Outbox.NoLoss.{Holds, OwnId}
use event_relay.Outbox.Delivered.{drains, drains_reach}
use event_relay.Ingest.{
  IngestRequest, Response, bad_request, server_error, duplicate, created, ingest_event, first_job,
}
use event_relay.Ingest.Fanout.{first_row, FannedOut}
use event_relay.Ingest.Atomic.{targets, marked, Stored, ingest_event-Stored}

-- The row's job is on the stream that its ordering key selects.
abbrev pub Reached : Text → World → OutboxRecord → Type 0
Reached base u o = Any (λ m. m ≡ to_send base o) (sent u)

module _ (base : Text) (event_id : ℕ) (key : Option Text) where
  -- The first attempt for the endpoint stands on the stream of the event's ordering key.
  abbrev pub Streamed : World → Endpoint → Type 0
  Streamed w ep =
      Any
        (λ m.
          (m.0 ≡ get_shard_stream_name default_shard_count key base)
          × (m.1.event_id ≡ event_id)
          × (m.1.endpoint_id ≡ ep.id)
          × (m.1.attempt_number ≡ 1))
        (sent w)

  module _ (u : World) where
    row-Streamed :
        (ep : Endpoint) (d : Delivery) (o : OutboxRecord)
        → d ≡ first_row d.id event_id ep.id
        → job_of o ≡ first_job d
        → o.ordering_key ≡ key
        → Reached base u o
        → Streamed u ep
    row-Streamed ep d o made announced keyed there =
        Any-imp _ _ (sent u)
          (λ m e. (
            ap (λ (x : Text × DeliveryJob). x.0) e
                ∙ ap (λ k. get_shard_stream_name default_shard_count k base) keyed,
            ap (λ (x : Text × DeliveryJob). x.1.event_id) e
                ∙ ap (λ (j : DeliveryJob). j.event_id) announced
                ∙ ap (λ (x : Delivery). x.event_id) made,
            ap (λ (x : Text × DeliveryJob). x.1.endpoint_id) e
                ∙ ap (λ (j : DeliveryJob). j.endpoint_id) announced
                ∙ ap (λ (x : Delivery). x.endpoint_id) made,
            ap (λ (x : Text × DeliveryJob). x.1.attempt_number) e
                ∙ ap (λ (j : DeliveryJob). j.attempt_number) announced,
          ))
          there

    rows-Streamed :
        (eps : List Endpoint) (ds : List Delivery) (os : List OutboxRecord)
        → FannedOut event_id key eps ds os
        → ((o : OutboxRecord) → Holds o os → Reached base u o)
        → All (Streamed u) eps
    rows-Streamed [] ds os fanned_out there = tt
    rows-Streamed (ep ∷ eps) [] os fanned_out there = absurd fanned_out
    rows-Streamed (ep ∷ eps) (d ∷ ds) [] fanned_out there = absurd fanned_out
    rows-Streamed (ep ∷ eps) (d ∷ ds) (o ∷ os) (made, announced, keyed, rest) there = (
      row-Streamed ep d o made announced keyed (there o (inl refl)),
      rows-Streamed eps ds os rest (λ x h. there x (inr h)),
    )

marked-outbox :
    (eps : List Endpoint) (id : ℕ) (db : Database) → (marked eps id db).outbox ≡ db.outbox
marked-outbox [] id db = refl
marked-outbox (ep ∷ eps) id db = refl

module _ (base : Text) (key : Text) (request : IngestRequest) (db : Database) (w u : World)
    (reach : (o : OutboxRecord) → Holds o w.db.outbox → Reached base u o) where
  created-Streamed :
      (answer : Response) (id m : ℕ)
      → answer ≡ created id m
      → Stored key request db answer w.db
      → All (Streamed base id (or_null request.ordering_key) u) (targets request db)
  created-Streamed bad_request id m e s = cc
  created-Streamed server_error id m e s = cc
  created-Streamed (duplicate old) id m e s = cc
  created-Streamed (created i k) id m e (ev, ds, os, absent, new, same, count, fanned_out, tables) =
      rows-Streamed base id (or_null request.ordering_key) u (targets request db) ds os
        (subst (λ j. FannedOut j (or_null request.ordering_key) (targets request db) ds os)
          (created_id e) fanned_out)
        λ o held. reach o (
          rw (ap (λ (b : Database). b.outbox) tables ∙ marked-outbox (targets request db) i _)
            (Any-append_right (λ x. x ≡ o) db.outbox os held))
    where
      created_id : created i k ≡ created id m → i ≡ id
      created_id e = cc

module _ (base : Text) (c : ℕ) (key : Text) (request : IngestRequest) (w : World) (id m : ℕ)
    (answered : (ingest_event (some (c ∷ key)) (some request) w).0 ≡ ok (created id m)) where
  -- An event that was answered 201, in a world where the jobs of all the rows that the outbox then had
  -- stand on their streams.
  pub Reached-Streamed :
      (u : World)
      → ((o : OutboxRecord)
          → Holds o (ingest_event (some (c ∷ key)) (some request) w).1.db.outbox
          → Reached base u o)
      → All (Streamed base id (or_null request.ordering_key) u) (targets request w.db)
  Reached-Streamed u reach =
      let (answer, e, s) = ingest_event-Stored c key request w in
      created-Streamed base (c ∷ key) request w.db
        (ingest_event (some (c ∷ key)) (some request) w).1 u reach answer id m
        (ok_injective (sym e ∙ answered)) s
    where
      ok_injective : {x y : Response} → ◌≡◌ {A = Result Response} (ok x) (ok y) → x ≡ y
      ok_injective e = cc

-- An event that was answered 201 reaches the streams: at any later moment with the tables as the answer
-- left them, where no call fails, the identifiers of the rows of the outbox are distinct and no other
-- transaction holds a row, as many drains as the outbox has rows, or more, leave on the stream of the
-- event's ordering key a job of the event in its first attempt for each of its targets.
pub ingested-Streamed :
    (base : Text) (c : ℕ) (key : Text) (request : IngestRequest) (w later : World) (id m n : ℕ)
    → (ingest_event (some (c ∷ key)) (some request) w).0 ≡ ok (created id m)
    → later.db ≡ (ingest_event (some (c ∷ key)) (some request) w).1.db
    → later.faults ≡ []
    → All (λ o. OwnId o later.db.outbox) later.db.outbox
    → length later.db.outbox ≤ n
    → All
        (Streamed base id (or_null request.ordering_key) (drains base n later))
        (targets request w.db)
ingested-Streamed base c key request w later id m n answered same calm own enough =
    Reached-Streamed base c key request w id m answered (drains base n later) λ o held.
      drains_reach base n later o calm enough own (rw (ap (λ (b : Database). b.outbox) same) held)
