-- ===== src/Outbox/NoLoss.antt =====
-- `drain` of backend/src/worker/outboxPublisher.ts: what becomes of one row.
use event_relay.Base.{
  ℕ, ◌≡◌, sym, ap, ◌⊎◌, inl, inr, Bool, true, false, List, [], ◌∷◌, map, take, any, All, All-take,
  All-select, Any, Any-append_right, Text, ◌==◌, ==_iff, Bool-cases,
}
use event_relay.Base.Sort.{All-sort_by}
use event_relay.Store.{World, Database, OutboxRecord, Result}
use event_relay.Outbox.{claim_batch, delete_rows, drain}
use event_relay.Outbox.Batch.{sent, to_send}
use event_relay.Outbox.Drain.{ids_of, Drained, drain-Drained}

abbrev pub Holds : OutboxRecord → List OutboxRecord → Type 0
Holds o rows = Any (λ x. x ≡ o) rows

-- The row's identifier is its own in the table.
abbrev pub OwnId : OutboxRecord → List OutboxRecord → Type 0
OwnId o rows = All (λ p. o.id ≡ p.id → p ≡ o) rows

pub claim_batch-All :
    (P : OutboxRecord → Type 0) (locked : ℕ → Bool) (rows : List OutboxRecord) (k : ℕ)
    → All P rows
    → All P (take k (claim_batch locked rows))
unfolding claim_batch
claim_batch-All P locked rows k h =
    All-take P k _ (All-take P 100 _ (All-select P _ _ (All-sort_by _ P rows h)))

module _ (base : Text) (o : OutboxRecord) where
  abbrev IsSent : List OutboxRecord → Type 0
  IsSent ps = Any (λ m. m ≡ to_send base o) (map (to_send base) ps)

  found_published :
      (ps : List OutboxRecord) → OwnId o ps → any (λ i. i == o.id) (ids_of ps) ≡ true → IsSent ps
  found_published [] h e = cc
  found_published (p ∷ ps) h e = elim (Bool-cases (p.id == o.id)) [
    | inl same ↦ inl (ap (to_send base) (h.0 (sym ((==_iff p.id o.id).0 same))))
    | inr other ↦ inr (found_published ps h.1 (rw other at e))
  ]

  kept_or_published :
      (rows ps : List OutboxRecord)
      → OwnId o ps
      → Holds o rows
      → Holds o (delete_rows (ids_of ps) rows) ⊎ IsSent ps
  unfolding delete_rows
  kept_or_published [] ps h m = absurd m
  kept_or_published (x ∷ rows) ps h (inl e) = elim (Bool-cases (any (λ i. i == x.id) (ids_of ps))) [
    | inl gone ↦ inr (found_published ps h (rw e at gone))
    | inr here ↦ rw here (inl (inl e))
  ]
  kept_or_published (x ∷ rows) ps h (inr m) = elim (kept_or_published rows ps h m) [
    | inr was_sent ↦ inr was_sent
    | inl kept ↦ elim (Bool-cases (any (λ i. i == x.id) (ids_of ps))) [
      | inl gone ↦ rw gone (inl kept)
      | inr here ↦ rw here (inl (inr kept))
    ]
  ]

-- Whichever calls to PostgreSQL and Redis fail during a drain (with none under way before), a row of
-- the outbox whose identifier is its own is afterwards still in the outbox, or its job is on the
-- stream that its ordering key selects.
pub drain_no_loss :
    (base : Text) (locked : ℕ → Bool) (w : World) (o : OutboxRecord)
    → OwnId o w.db.outbox
    → Holds o w.db.outbox
    → Holds o (drain base false locked w).1.db.outbox
      ⊎ Any (λ m. m ≡ to_send base o) (sent (drain base false locked w).1)
drain_no_loss base locked w o own held =
    go (drain base false locked w) (drain-Drained base locked w)
  where
    go :
        (r : Result (ℕ × Bool) × World)
        → Drained base locked w r
        → Holds o r.1.db.outbox ⊎ Any (λ m. m ≡ to_send base o) (sent r.1)
    go r (k, n, _, more, inr (_, same)) = inl (rw (ap (λ (b : Database). b.outbox) same) held)
    go r (k, n, _, more, inl (_, same)) =
        elim (kept_or_published base o w.db.outbox (take k (claim_batch locked w.db.outbox))
          (claim_batch-All (λ p. o.id ≡ p.id → p ≡ o) locked w.db.outbox k own) held) [
            | inl kept ↦ inl (rw (ap (λ (b : Database). b.outbox) same) kept)
            | inr was_sent ↦
                inr (rw more (Any-append_right (λ m. m ≡ to_send base o) (sent w) _ was_sent))
          ]
