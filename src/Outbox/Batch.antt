-- ===== src/Outbox/Batch.antt =====
-- `drain` of backend/src/worker/outboxPublisher.ts: the loop over a batch.
use mathlib.Core.List.{append_assoc, append-nil, map-append}
use event_relay.Base.{
  ℕ, suc, ◌≡◌, refl, sym, ap, ◌∙◌, Bool, true, false, List, [], ◌∷◌, ◌++◌, map, take, Text,
  if◌then◌else◌,
}
use event_relay.Store.{
  World, OutboxRecord, DeliveryJob, StreamMessage, Result, ok, thrown, continue, recover, pure,
}
use event_relay.Store.Atomic.{attempt_rule, continue_ok}
use event_relay.StreamQueue.{publish, add_entry}
use event_relay.Partitioner.{get_shard_stream_name, default_shard_count}
use event_relay.Outbox.{job_of, try_publish, publish_rows}

abbrev stream_and_job : StreamMessage → Text × DeliveryJob
stream_and_job m = (m.stream_name, m.job)

-- The stream and the job of an entry, and those of a row.
abbrev pub sent : World → List (Text × DeliveryJob)
sent w = map stream_and_job w.redis.entries

abbrev pub to_send : Text → OutboxRecord → Text × DeliveryJob
to_send base row = (get_shard_stream_name default_shard_count row.ordering_key base, job_of row)

module _ (base : Text) where
  -- Redis took the row's job and put it at the end of its stream, or nothing changed.
  abbrev TriedPublish : OutboxRecord → World → Result Bool × World → Type 0
  TriedPublish row w (ok true, v) = (v.db ≡ w.db) × (sent v ≡ sent w ++ to_send base row ∷ [])
  TriedPublish row w (ok false, v) = (v.db ≡ w.db) × (sent v ≡ sent w)
  TriedPublish row w (thrown, v) = ⊥

  try_publish_lem : (row : OutboxRecord) (w : World) → TriedPublish row w (try_publish base row w)
  unfolding try_publish publish add_entry
  try_publish_lem row w =
      attempt_rule (λ r. TriedPublish row w (recover (continue r (λ _. pure true)) (pure false)))
        (add_entry (to_send base row).0 (job_of row)) w.faults w (λ rest. (refl, refl))
        (λ rest. (refl, map-append stream_and_job w.redis.entries _))

  -- The loop published the first `k` rows.
  abbrev pub Published : List OutboxRecord → World → Result (List ℕ) × World → Type 0
  Published rows w r =
      (k : ℕ) × (r.0 ≡ ok (map (λ (o : OutboxRecord). o.id) (take k rows)))
      × (r.1.db ≡ w.db)
      × (sent r.1 ≡ sent w ++ map (to_send base) (take k rows))

  publish_step :
      (row : OutboxRecord) (rows : List OutboxRecord) (w : World) (r : Result Bool × World)
      → TriedPublish row w r
      → ((v : World) → Published rows v (publish_rows base rows v))
      → Published (row ∷ rows) w (
          continue r (λ p.
            if p
            then (λ v. continue (publish_rows base rows v) (λ ids. pure (row.id ∷ ids)))
            else pure []))
  publish_step row rows w (ok true, v) (same, more) rec =
      let (k, e, d, s) = rec v in
      (
        suc k,
        rw (continue_ok (publish_rows base rows v) _ (λ ids. pure (row.id ∷ ids)) e),
        rw (continue_ok (publish_rows base rows v) _ (λ ids. pure (row.id ∷ ids)) e) (d ∙ same),
        rw (continue_ok (publish_rows base rows v) _ (λ ids. pure (row.id ∷ ids)) e) (
            s
            ∙ (ap (λ x. x ++ map (to_send base) (take k rows)) more
                ∙ append_assoc (sent w) (to_send base row ∷ [])
                    (map (to_send base) (take k rows)))),
      )
  publish_step row rows w (ok false, v) (same, none_more) rec =
      (0, refl, same, none_more ∙ sym (append-nil (sent w)))
  publish_step row rows w (thrown, v) h rec = absurd h

  pub publish_rows-Published :
      (rows : List OutboxRecord) (w : World) → Published rows w (publish_rows base rows w)
  unfolding publish_rows
  publish_rows-Published [] w = (0, refl, refl, sym (append-nil (sent w)))
  publish_rows-Published (row ∷ rows) w =
      publish_step row rows w (try_publish base row w) (try_publish_lem row w)
        (publish_rows-Published rows)
