-- ===== src/Outbox/Numbered.antt =====
-- The identifiers of the rows of the outbox (backend/src/db/schema.sql), which are drawn from a sequence
-- that does not repeat.
use event_relay.Base.{
  ℕ, ◌+◌, ◌<◌, ◌≡◌, ◌≢◌, refl, sym, ◌∙◌, inl, inr, Bool, List, [], ◌∷◌, ◌++◌, select, All, All-imp,
  All-append, All-select, arith, Bool-cases,
}
use event_relay.Store.{World, OutboxRecord}
use event_relay.Outbox.Frame.{Sound, Drains}
use event_relay.Outbox.NoLoss.{OwnId}

abbrev pub Distinct : List OutboxRecord → Type 0
Distinct [] = Unit {0}
Distinct (o ∷ os) = All (λ p. o.id ≢ p.id) os × Distinct os

Distinct-snoc :
    (o : OutboxRecord) (rows : List OutboxRecord)
    → Distinct rows
    → All (λ p. p.id ≢ o.id) rows
    → Distinct (rows ++ o ∷ [])
Distinct-snoc o [] d h = (tt, tt)
Distinct-snoc o (p ∷ rows) d h =
    (All-append (λ q. p.id ≢ q.id) rows (o ∷ []) d.0 (h.0, tt), Distinct-snoc o rows d.1 h.1)

Distinct-select :
    (test : OutboxRecord → Bool) (rows : List OutboxRecord)
    → Distinct rows
    → Distinct (select test rows)
Distinct-select test [] d = tt
Distinct-select test (p ∷ rows) d = elim (Bool-cases (test p)) [
  | inl e ↦ rw e (All-select (λ q. p.id ≢ q.id) test rows d.0, Distinct-select test rows d.1)
  | inr e ↦ rw e (Distinct-select test rows d.1)
]

-- In a list without repetitions each identifier is its row's own.
pub Distinct-OwnId : (rows : List OutboxRecord) → Distinct rows → All (λ o. OwnId o rows) rows
Distinct-OwnId [] d = tt
Distinct-OwnId (p ∷ rows) d = (
  (
    (λ _. refl),
    All-imp (λ q. p.id ≢ q.id) (λ q. p.id ≡ q.id → q ≡ p) rows (λ q n e. absurd (n e)) d.0,
  ),
  owners rows (Distinct-OwnId rows d.1) d.0,
)
  where
    owners :
        (os : List OutboxRecord)
        → All (λ o. OwnId o rows) os
        → All (λ q. p.id ≢ q.id) os
        → All (λ o. OwnId o (p ∷ rows)) os
    owners [] own n = tt
    owners (o ∷ os) own n = (((λ e. absurd (n.0 (sym e))), own.0), owners os own.1 n.1)

module _ (uuid : ℕ → ℕ) where
  -- The rows' identifiers are distinct and among the first n of the sequence.
  abbrev pub Numbered : List OutboxRecord → ℕ → Type 0
  Numbered rows n = Distinct rows × All (λ o. (k : ℕ) × (k < n) × (o.id ≡ uuid k)) rows

  Numbered-more : (rows : List OutboxRecord) (n : ℕ) → Numbered rows n → Numbered rows (n + 1)
  Numbered-more rows n (d, h) = (
    d,
    All-imp (λ o. (k : ℕ) × (k < n) × (o.id ≡ uuid k))
        (λ o. (k : ℕ) × (k < n + 1) × (o.id ≡ uuid k)) rows
        (λ o (k, l, e). (k, omega (arith, l), e)) h,
  )

  abbrev pub Kept : World → Type 0
  Kept v = (v.uuid ≡ uuid) × Numbered v.db.outbox v.drawn

  module _ (apart : (i j : ℕ) → uuid i ≡ uuid j → i ≡ j) where
    Numbered-insert :
        (o : OutboxRecord) (rows : List OutboxRecord) (n : ℕ)
        → o.id ≡ uuid n
        → Numbered rows n
        → Numbered (rows ++ o ∷ []) (n + 1)
    Numbered-insert o rows n e h = (
      Distinct-snoc o rows h.0 (
          All-imp (λ p. (k : ℕ) × (k < n) × (p.id ≡ uuid k)) (λ p. p.id ≢ o.id) rows
            (λ p (k, l, i) same.
              let again : k ≡ n = apart k n (sym i ∙ (same ∙ e)) in
              absurd (omega (arith, l, again)))
            h.1),
      All-append (λ p. (k : ℕ) × (k < n + 1) × (p.id ≡ uuid k)) rows (o ∷ [])
          (Numbered-more rows n h).1 ((n, omega arith, e), tt),
    )

    pub Kept-Sound : Sound Kept
    Kept-Sound = record {
      blind = record {
        to_faults = λ v fs h. h;
        to_metrics = λ v m h. h;
        to_clock = λ v t h. h;
        to_buckets = λ v bs h. h;
        to_rows = λ v es ds h. h;
      };
      to_draw = λ v h. (h.0, Numbered-more v.db.outbox v.drawn h.1);
      to_insert = λ v o e h. (h.0, Numbered-insert o v.db.outbox v.drawn (e ∙ rw h.0 refl) h.1);
    }

    pub Kept-Drains : Drains Kept
    Kept-Drains = record {
      to_entries = λ v es h. (h.0, Numbered-more v.db.outbox v.drawn h.1);
      to_delete = λ v test h. (
        h.0,
        (
          Distinct-select test v.db.outbox h.1.0,
          All-select (λ o. (k : ℕ) × (k < v.drawn) × (o.id ≡ uuid k)) test v.db.outbox h.1.1,
        ),
      );
    }
