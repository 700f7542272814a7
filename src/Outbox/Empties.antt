-- ===== src/Outbox/Empties.antt =====
-- `drain` of backend/src/worker/outboxPublisher.ts again and again, where no call fails and no other
-- transaction holds a row.
use event_relay.Base.{
  ℕ, suc, ◌≡◌, refl, sym, ap, ◌∙◌, Bool, true, false, List, [], ◌∷◌, length, Text, arith, lt→ltb,
  suc,
}
use event_relay.Store.{World, OutboxRecord, ok, M, modify, no_op}
use event_relay.Store.Effects.{with_transaction, begin_commit}
use event_relay.Store.Atomic.{attempt_runs}
use event_relay.StreamQueue.{publish, add_entry}
use event_relay.Outbox.{
  job_of, claim_batch, delete_published, try_publish, publish_rows, drain_batch, drain_transaction,
  drain,
}
use event_relay.Partitioner.{get_shard_stream_name, default_shard_count}
use event_relay.Outbox.Drain.{ids_of, without, delete_rows-nil}

abbrev pub unlocked : ℕ → Bool
unlocked id = false

with_transaction_runs :
    {A : Type 0} (m : M A) (w : World) (a : A) (v : World)
    → w.faults ≡ []
    → m w ≡ (ok a, v)
    → v.faults ≡ []
    → with_transaction m w ≡ (ok a, v)
unfolding with_transaction begin_commit
with_transaction_runs m w a v e t f =
    let start = attempt_runs no_op w.faults w e in
    rw start (rw start (rw t (rw (attempt_runs no_op v.faults v f) refl)))

try_publish_runs :
    (base : Text) (row : OutboxRecord) (w : World)
    → w.faults ≡ []
    → (v : World) × (try_publish base row w ≡ (ok true, v)) × (v.faults ≡ []) × (v.db ≡ w.db)
unfolding try_publish publish add_entry
try_publish_runs base row w e =
    let add =
      add_entry (get_shard_stream_name default_shard_count row.ordering_key base) (job_of row) in
    ((add w).1, rw (attempt_runs add w.faults w e) refl, e, refl)

-- Where no call fails, the whole batch is published.
publish_runs :
    (base : Text) (rows : List OutboxRecord) (w : World)
    → w.faults ≡ []
    → (v : World) × (publish_rows base rows w ≡ (ok (ids_of rows), v))
      × (v.faults ≡ [])
      × (v.db ≡ w.db)
unfolding publish_rows
publish_runs base [] w e = (w, refl, e, refl)
publish_runs base (row ∷ rows) w e =
    let (v, t, f, same) = try_publish_runs base row w e in
    let (v', t', f', same') = publish_runs base rows v f in
    (v', rw t (rw t' refl), f', same' ∙ same)

delete_runs :
    (ids : List ℕ) (w : World)
    → w.faults ≡ []
    → (v : World) × (delete_published ids w ≡ (ok tt, v))
      × (v.faults ≡ [])
      × (v.db ≡ without w.db ids)
delete_runs [] w e =
    (w, refl, e, ap (λ r. record (w.db) { outbox = r }) (sym (delete_rows-nil w.db.outbox)))
delete_runs (i ∷ ids) w e = (
  record w { db = without w.db (i ∷ ids) },
  rw (lt→ltb 0 (suc (length ids)) (omega arith))
      (attempt_runs (modify (λ v. record v { db = without v.db (i ∷ ids) })) w.faults w e),
  e,
  refl,
)

batch_runs :
    (base : Text) (rows : List OutboxRecord) (w : World)
    → w.faults ≡ []
    → (n : ℕ) × (v : World) × (drain_batch base rows w ≡ (ok n, v))
      × (v.faults ≡ [])
      × (v.db ≡ without w.db (ids_of rows))
unfolding drain_batch
batch_runs base [] w e =
    (0, w, refl, e, ap (λ r. record (w.db) { outbox = r }) (sym (delete_rows-nil w.db.outbox)))
batch_runs base (row ∷ rows) w e =
    let (v, t, f, same) = publish_runs base (row ∷ rows) w e in
    let (v', t', f', same') = delete_runs (ids_of (row ∷ rows)) v f in
    (
      length (ids_of (row ∷ rows)),
      v',
      rw t (rw t' refl),
      f',
      same' ∙ ap (λ b. without b (ids_of (row ∷ rows))) same,
    )

pub drain_runs :
    (base : Text) (w : World)
    → w.faults ≡ []
    → ((drain base false unlocked w).1.faults ≡ [])
      × ((drain base false unlocked w).1.db
          ≡ without w.db (ids_of (claim_batch unlocked w.db.outbox)))
unfolding drain drain_transaction with_transaction begin_commit
drain_runs base w e =
    let batch = claim_batch unlocked w.db.outbox in
    let (n, v, t, f, same) = batch_runs base batch w e in
    rw
      (with_transaction_runs (drain_transaction base unlocked) w n v e
        (rw (attempt_runs (λ u. (ok (claim_batch unlocked u.db.outbox), u)) w.faults w e) t) f)
      (f, same)
