-- ===== src/Outbox/Drain.antt =====
-- `drain` of backend/src/worker/outboxPublisher.ts as a whole.
use mathlib.Core.List.{append-nil}
use event_relay.Base.{
  ℕ, suc, ◌≡◌, refl, sym, ap, ◌∙◌, ◌⊎◌, inl, inr, Bool, false, not, List, [], ◌∷◌, ◌++◌, map, take,
  Text, length, arith, lt→ltb, length-map,
}
use event_relay.Base.Sort.{IsSorted, IsSorted-query, IsSorted-first}
use event_relay.Store.{
  World, Database, OutboxRecord, DeliveryJob, Result, ok, thrown, continue, recover, pure, modify,
  with_transaction,
}
use event_relay.Store.Atomic.{Ends, Stable, attempt_rule, continue_ok, with_transaction-Ends}
use event_relay.Outbox.{
  claim_batch, delete_rows, delete_published, publish_rows, drain_batch, drain_transaction, drain,
}
use event_relay.Outbox.Batch.{sent, to_send, Published, publish_rows-Published}

abbrev pub ids_of : List OutboxRecord → List ℕ
ids_of = map λ (o : OutboxRecord). o.id

pub delete_rows-nil : (rows : List OutboxRecord) → delete_rows [] rows ≡ rows
unfolding delete_rows
delete_rows-nil [] = refl
delete_rows-nil (o ∷ rows) = ap (◌∷◌ o) (unfold delete_rows in delete_rows-nil rows)

abbrev pub without : Database → List ℕ → Database
without db ids = record db { outbox = delete_rows ids db.outbox }

module _ (base : Text) (db : Database) (before : List (Text × DeliveryJob))
    (batch : List OutboxRecord) where
  -- The entries of the streams, with the first `k` rows of the batch behind those of before.
  abbrev pub Sent : ℕ → World → Type 0
  Sent k w = sent w ≡ before ++ map (to_send base) (take k batch)

  -- The first `k` rows are on the streams, and out of the outbox.
  abbrev pub Moved : ℕ → World → Type 0
  Moved n w =
      (k : ℕ) × (n ≡ length (take k batch)) × (w.db ≡ without db (ids_of (take k batch))) × Sent k w

  abbrev pub SomeSent : World → Type 0
  SomeSent w = (k : ℕ) × Sent k w

  Moved-Stable : Stable Moved SomeSent
  Moved-Stable = record {
    blind = λ n v fs h. h;
    spoilt = λ n v h. (h.0, h.3);
    undone = λ v d fs h. h;
  }

  delete_step :
      (k : ℕ) (ids : List ℕ) (w : World)
      → ids ≡ ids_of (take k batch)
      → w.db ≡ db
      → Sent k w
      → Ends Moved SomeSent (continue (delete_published ids w) (λ _. pure (length ids)))
  delete_step k [] w e d s = (
    k,
    ap length e ∙ length-map (λ (o : OutboxRecord). o.id) (take k batch),
    d ∙ ap (λ r. record db { outbox = r }) (sym (delete_rows-nil db.outbox)) ∙ ap (without db) e,
    s,
  )
  delete_step k (i ∷ ids) w e d s = rw (lt→ltb 0 (suc (length ids)) (omega arith)) (
      attempt_rule (λ r. Ends Moved SomeSent (continue r (λ _. pure (length (i ∷ ids)))))
        (modify (λ v. record v { db = without v.db (i ∷ ids) })) w.faults w (λ rest. (k, s))
        (λ rest. (
          k,
          ap length e ∙ length-map (λ (o : OutboxRecord). o.id) (take k batch),
          ap (λ b. without b (i ∷ ids)) d ∙ ap (without db) e,
          s,
        )))

  batch_step :
      (r : Result (List ℕ) × World) (w : World)
      → w.db ≡ db
      → sent w ≡ before
      → Published base batch w r
      → Ends Moved SomeSent
          (continue r (λ ids. λ v. continue (delete_published ids v) (λ _. pure (length ids))))
  batch_step r w d s (k, e, same, more) =
      rw
        (continue_ok r _ (λ ids. λ v. continue (delete_published ids v) (λ _. pure (length ids))) e)
        (delete_step k (ids_of (take k batch)) r.1 refl (same ∙ d)
          (more ∙ ap (λ x. x ++ map (to_send base) (take k batch)) s))

  drain_batch-Ends :
      (rows : List OutboxRecord) (w : World)
      → rows ≡ batch
      → w.db ≡ db
      → sent w ≡ before
      → Ends Moved SomeSent (drain_batch base rows w)
  unfolding drain_batch
  drain_batch-Ends [] w e d s = (
    0,
    refl,
    d ∙ ap (λ r. record db { outbox = r }) (sym (delete_rows-nil db.outbox)),
    s ∙ sym (append-nil before),
  )
  drain_batch-Ends (row ∷ rows) w e d s =
      batch_step (publish_rows base (row ∷ rows) w) w d s
        (rw (← e) (publish_rows-Published base (row ∷ rows) w))

abbrev pub batch_of : (ℕ → Bool) → World → List OutboxRecord
batch_of locked w = claim_batch locked w.db.outbox

-- How a drain ends: the rows of a prefix of the batch are on the streams, in order, behind what was
-- there, and either exactly those are gone from the outbox, and counted, or the tables are as before.
abbrev pub Drained : Text → (ℕ → Bool) → World → Result (ℕ × Bool) × World → Type 0
Drained base locked w r =
    (k : ℕ) × (n : ℕ) × (r.0 ≡ ok (n, false))
    × Sent base w.db (sent w) (batch_of locked w) k r.1
    × (((n ≡ length (take k (batch_of locked w)))
          × (r.1.db ≡ without w.db (ids_of (take k (batch_of locked w)))))
        ⊎ ((n ≡ 0) × (r.1.db ≡ w.db)))

module _ (base : Text) (locked : ℕ → Bool) (w : World) where
  drain_transaction-Ends :
      (v : World)
      → v.db ≡ w.db
      → sent v ≡ sent w
      → Ends
          (Moved base w.db (sent w) (batch_of locked w))
          (SomeSent base w.db (sent w) (batch_of locked w))
          (drain_transaction base locked v)
  unfolding drain_transaction
  drain_transaction-Ends v d s =
      attempt_rule
        (λ r.
          Ends (Moved base w.db (sent w) (batch_of locked w))
            (SomeSent base w.db (sent w) (batch_of locked w)) (continue r (drain_batch base)))
        (λ x. (ok (claim_batch locked x.db.outbox), x)) v.faults v
        (λ rest. (0, s ∙ sym (append-nil (sent w))))
        (λ rest.
          drain_batch-Ends base w.db (sent w) (batch_of locked w) (claim_batch locked v.db.outbox)
            (record v { faults = rest }) (ap (λ (b : Database). claim_batch locked b.outbox) d) d s)

  drained :
      (r : Result ℕ × World)
      → Ends
          (Moved base w.db (sent w) (batch_of locked w))
          (λ v. (v.db ≡ w.db) × SomeSent base w.db (sent w) (batch_of locked w) v)
          r
      → Drained base locked w (continue (recover r (pure 0)) (λ n. pure (n, false)))
  drained (ok n, v) (k, count, same, more) = (k, n, refl, more, inl (count, same))
  drained (thrown, v) (same, (k, more)) = (k, 0, refl, more, inr (refl, same))

  -- A drain, with none under way, never throws, whichever of its calls fail, and leaves `isDraining`
  -- false. The jobs of the first k rows of its batch, for some k, come to stand on the streams, in
  -- that order. Either exactly those rows are deleted and k is returned, or the tables are as they
  -- were and 0 is returned.
  pub drain-Drained : Drained base locked w (drain base false locked w)
  unfolding drain
  drain-Drained = drained (with_transaction (drain_transaction base locked) w) (
      with_transaction-Ends _ _ (Moved-Stable base w.db (sent w) (batch_of locked w))
        (drain_transaction base locked) w (0, sym (append-nil (sent w)))
        (λ fs. drain_transaction-Ends (record w { faults = fs }) refl refl))

-- The first k rows that a drain claims, which are those it publishes, are in order of their creation.
pub drain_in_order :
    (locked : ℕ → Bool) (rows : List OutboxRecord) (k : ℕ)
    → IsSorted (λ (o : OutboxRecord). o.created_at) (take k (claim_batch locked rows))
unfolding claim_batch
drain_in_order locked rows k =
    IsSorted-first (λ (o : OutboxRecord). o.created_at) k _
      (IsSorted-query (λ (o : OutboxRecord). o.created_at) 100 (λ r. not (locked r.id)) rows)
