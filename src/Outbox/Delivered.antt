-- ===== src/Outbox/Delivered.antt =====
-- `drain` of backend/src/worker/outboxPublisher.ts on each tick of its timer, where no call fails and
-- no other transaction holds a row.
use mathlib.Core.Path.{subst}
use event_relay.Base.{
  ℕ, zero, suc, ◌≤◌, ◌<◌, ◌≡◌, refl, ap, ◌∙◌, false, not, Bool-cases, leb, ==_self, ◌==◌, List, [],
  ◌∷◌, any, select, take, length, All, All-imp, All-select, Any, Any-append_left, inl, inr, Text,
  arith,
}
use event_relay.Base.Sort.{insert_by, sort_by}
use event_relay.Store.{World, OutboxRecord, DeliveryJob}
use event_relay.Outbox.{claim_batch, delete_rows, drain}
use event_relay.Outbox.Batch.{sent, to_send}
use event_relay.Outbox.Drain.{ids_of, drain-Drained}
use event_relay.Outbox.NoLoss.{Holds, OwnId, claim_batch-All, drain_no_loss}
use event_relay.Outbox.Empties.{unlocked, drain_runs}

-- As many drains, each after the one before.
unfoldable pub drains : Text → ℕ → World → World
drains base zero w = w
drains base (suc n) w = drains base n (drain base false unlocked w).1

each_held : (rows : List OutboxRecord) → All (λ p. Holds p rows) rows
each_held [] = tt
each_held (x ∷ rows) = (
  inl refl,
  All-imp (λ p. Holds p rows) (λ p. Holds p (x ∷ rows)) rows (λ p h. inr h) (each_held rows),
)

delete_rows-le :
    (ids : List ℕ) (rows : List OutboxRecord) → length (delete_rows ids rows) ≤ length rows
unfolding delete_rows
delete_rows-le ids [] = omega arith
delete_rows-le ids (x ∷ rows) = elim (Bool-cases (any (λ i. i == x.id) ids)) [
  | inl e ↦ rw e (omega (arith, delete_rows-le ids rows))
  | inr e ↦ rw e (omega (arith, delete_rows-le ids rows))
]

-- A row of the table that is named first goes.
delete_rows-lt :
    (o : OutboxRecord) (ids : List ℕ) (rows : List OutboxRecord)
    → Holds o rows
    → length (delete_rows (o.id ∷ ids) rows) < length rows
unfolding delete_rows
delete_rows-lt o ids [] h = absurd h
delete_rows-lt o ids (x ∷ rows) (inl e) =
    rw e (rw (==_self o.id) (omega (arith, delete_rows-le (o.id ∷ ids) rows)))
delete_rows-lt o ids (x ∷ rows) (inr h) = elim (Bool-cases (any (λ i. i == x.id) (o.id ∷ ids))) [
  | inl e ↦ rw e (omega (arith, delete_rows-lt o ids rows h))
  | inr e ↦ rw e (omega (arith, delete_rows-lt o ids rows h))
]

insert_first :
    (x : OutboxRecord) (ys : List OutboxRecord)
    → (o : OutboxRecord) × (rest : List OutboxRecord) × (insert_by
          (λ (r : OutboxRecord). r.created_at)
          x
          ys
        ≡ o ∷ rest)
unfolding insert_by
insert_first x [] = (x, [], refl)
insert_first x (y ∷ ys) = elim (Bool-cases (leb x.created_at y.created_at)) [
  | inl e ↦ (x, y ∷ ys, rw e refl)
  | inr e ↦ (y, insert_by (λ (r : OutboxRecord). r.created_at) x ys, rw e refl)
]

nothing_locked : (rows : List OutboxRecord) → select (λ r. not (unlocked r.id)) rows ≡ rows
nothing_locked [] = refl
nothing_locked (x ∷ rows) = ap (◌∷◌ x) (nothing_locked rows)

-- The batch of a table with rows has a first row.
claim_first :
    (x : OutboxRecord) (rows : List OutboxRecord)
    → (o : OutboxRecord) × (rest : List OutboxRecord) × (claim_batch unlocked (x ∷ rows) ≡ o ∷ rest)
unfolding claim_batch sort_by
claim_first x rows =
    let (o, rest, e) = insert_first x (sort_by (λ (r : OutboxRecord). r.created_at) rows) in
    (o, take 99 rest, ap (take 100) (nothing_locked _ ∙ e))

drain_shrinks :
    (o : OutboxRecord) (rows : List OutboxRecord)
    → Holds o rows
    → length (delete_rows (ids_of (claim_batch unlocked rows)) rows) < length rows
drain_shrinks o [] held = absurd held
drain_shrinks o (x ∷ rows) held =
    let (p, rest, e) = claim_first x rows in
    let there =
      subst (λ ps. All (λ q. Holds q (x ∷ rows)) (take 1 ps)) e
        (claim_batch-All (λ q. Holds q (x ∷ rows)) unlocked (x ∷ rows) 1 (each_held (x ∷ rows))) in
    rw e (delete_rows-lt p (ids_of rest) (x ∷ rows) there.0)

none_held : (o : OutboxRecord) (rows : List OutboxRecord) → length rows ≤ 0 → Holds o rows → ⊥
none_held o [] le held = held
none_held o (x ∷ rows) le held = omega (arith, le)

pub drains_keep :
    (base : Text) (n : ℕ) (w : World) (m : Text × DeliveryJob)
    → Any (λ x. x ≡ m) (sent w)
    → Any (λ x. x ≡ m) (sent (drains base n w))
unfolding drains
drains_keep base zero w m h = h
drains_keep base (suc n) w m h =
    let (k, c, _, more, _) = drain-Drained base unlocked w in
    drains_keep base n (drain base false unlocked w).1 m
      (rw more (Any-append_left (λ x. x ≡ m) (sent w) _ h))

-- Where no call fails and no other transaction holds a row, a row of the outbox whose identifier is
-- its own is on the stream that its ordering key selects after at least as many drains as the outbox
-- has rows.
pub drains_deliver :
    (base : Text) (n : ℕ) (w : World) (o : OutboxRecord)
    → w.faults ≡ []
    → length w.db.outbox ≤ n
    → OwnId o w.db.outbox
    → Holds o w.db.outbox
    → Any (λ m. m ≡ to_send base o) (sent (drains base n w))
unfolding drains
drains_deliver base zero w o calm enough own held = absurd (none_held o w.db.outbox enough held)
drains_deliver base (suc n) w o calm enough own held =
    let (calm', same) = drain_runs base w calm in
    elim (drain_no_loss base unlocked w o own held) [
      | inl kept ↦
          drains_deliver base n (drain base false unlocked w).1 o calm'
            (rw same (omega (arith, enough, drain_shrinks o w.db.outbox held)))
            (rw same
              (unfold delete_rows in All-select (λ p. o.id ≡ p.id → p ≡ o) _ w.db.outbox own))
            kept
      | inr there ↦ drains_keep base n (drain base false unlocked w).1 (to_send base o) there
    ]

pub held_has :
    (P : OutboxRecord → Type 0) (o : OutboxRecord) (rows : List OutboxRecord)
    → All P rows
    → Holds o rows
    → P o
held_has P o [] h held = absurd held
held_has P o (x ∷ rows) h (inl e) = subst P e h.0
held_has P o (x ∷ rows) h (inr held) = held_has P o rows h.1 held

-- The same, where every row has an identifier of its own.
pub drains_reach :
    (base : Text) (n : ℕ) (w : World) (o : OutboxRecord)
    → w.faults ≡ []
    → length w.db.outbox ≤ n
    → All (λ p. OwnId p w.db.outbox) w.db.outbox
    → Holds o w.db.outbox
    → Any (λ m. m ≡ to_send base o) (sent (drains base n w))
drains_reach base n w o calm enough own held =
    drains_deliver base n w o calm enough (held_has _ o w.db.outbox own held) held
