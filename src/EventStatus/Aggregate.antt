-- ===== src/EventStatus/Aggregate.antt =====
-- The counts that the loop makes, and the status that they lead to.
use event_relay.Base.{
  ℕ, ◌+◌, ◌<◌, ◌≡◌, ◌≢◌, refl, ap, ◌∙◌, ◌⊎◌, inl, inr, ◌↔◌, true, List, [], ◌∷◌, length, count,
  count-le-length, All, Any, arith, ltb, Bool-cases,
}
use event_relay.Store.{
  DeliveryStatus, retrying, success, dead_letter, delivery_status_eq, delivery_status_eq_iff,
  EventStatus, processing, completed, failed, partial_success, no_targets,
}
use event_relay.EventStatus.{
  count_status, group_by_status, Tally, no_tally, add_row, tally, aggregate_status, status_of_rows,
}

add_row_suc :
    (t : Tally) (s u : DeliveryStatus) (n : ℕ)
    → delivery_status_eq s u ≡ true
    → add_row t (u, n + 1) ≡ add_row (add_row t (s, 1)) (u, n)
unfolding add_row
add_row_suc t s u n h = ground arith

add_row_comm :
    (t : Tally) (s u : DeliveryStatus) (n : ℕ)
    → add_row (add_row t (u, n)) (s, 1) ≡ add_row (add_row t (s, 1)) (u, n)
unfolding add_row
add_row_comm t s u n = ground arith

tally-count_status :
    (t : Tally) (s : DeliveryStatus) (rows : List (DeliveryStatus × ℕ))
    → tally t (count_status s rows) ≡ tally (add_row t (s, 1)) rows
unfolding tally count_status
tally-count_status t s [] = refl
tally-count_status t s ((u, n) ∷ rows) = elim (Bool-cases (delivery_status_eq s u)) [
  | inl e ↦ rw e (ap (λ x. tally x rows) (add_row_suc t s u n e))
  | inr e ↦
      rw e (
        tally-count_status (add_row t (u, n)) s rows
        ∙ ap (λ x. tally x rows) (add_row_comm t s u n))
]

abbrev pub count_of : DeliveryStatus → List DeliveryStatus → ℕ
count_of s = count (delivery_status_eq s)

-- A tally, and the deliveries still to count.
abbrev counted : Tally → List DeliveryStatus → Tally
counted t ss = record {
  success_count = t.success_count + count_of success ss;
  dead_letter_count = t.dead_letter_count + count_of dead_letter ss;
  retrying_count = t.retrying_count + count_of retrying ss;
  total = t.total + length ss;
}

counted-cons :
    (t : Tally) (s : DeliveryStatus) (ss : List DeliveryStatus)
    → counted (add_row t (s, 1)) ss ≡ counted t (s ∷ ss)
unfolding add_row
counted-cons t s ss = ground arith

tally-group_by_status :
    (t : Tally) (ss : List DeliveryStatus) → tally t (group_by_status ss) ≡ counted t ss
unfolding tally group_by_status
tally-group_by_status t [] = ground arith
tally-group_by_status t (s ∷ ss) =
    tally-count_status t s (group_by_status ss)
    ∙ (tally-group_by_status (add_row t (s, 1)) ss ∙ counted-cons t s ss)

status_of_count_status :
    (s : DeliveryStatus) (rows : List (DeliveryStatus × ℕ))
    → status_of_rows (count_status s rows) ≡ aggregate_status (tally no_tally (count_status s rows))
unfolding status_of_rows count_status
status_of_count_status s [] = refl
status_of_count_status s ((t, n) ∷ rows) = elim (Bool-cases (delivery_status_eq s t)) [
  | inl e ↦ rw e
  | inr e ↦ rw e
]

status_of_children :
    (s : DeliveryStatus) (ss : List DeliveryStatus)
    → status_of_rows (group_by_status (s ∷ ss)) ≡ aggregate_status (counted no_tally (s ∷ ss))
unfolding group_by_status
status_of_children s ss =
    status_of_count_status s (group_by_status ss)
    ∙ ap aggregate_status (unfold group_by_status in tally-group_by_status no_tally (s ∷ ss))

count-All :
    (s : DeliveryStatus) (ss : List DeliveryStatus)
    → (count_of s ss ≡ length ss) ↔ All (λ x. x ≡ s) ss
count-All s [] = (λ _. tt, λ _. refl)
count-All s (x ∷ ss) =
    ground
      (arith, count-All s ss, delivery_status_eq_iff s x, count-le-length (delivery_status_eq s) ss)

pub count-Any :
    (s : DeliveryStatus) (ss : List DeliveryStatus) → (0 < count_of s ss) ↔ Any (λ x. x ≡ s) ss
count-Any s [] = ground arith
count-Any s (x ∷ ss) = ground (arith, count-Any s ss, delivery_status_eq_iff s x)

pub count_none :
    (s : DeliveryStatus) (ss : List DeliveryStatus) → (count_of s ss ≡ 0) ↔ All (λ x. x ≢ s) ss
count_none s [] = (λ _. tt, λ _. refl)
count_none s (x ∷ ss) = ground (arith, count_none s ss, delivery_status_eq_iff s x)

-- What each status of an event says of the statuses of its deliveries.
abbrev pub Describes : EventStatus → List DeliveryStatus → Type 0
Describes no_targets ss = ss ≡ []
Describes completed ss = (ss ≢ []) × All (λ s. s ≡ success) ss
Describes failed ss = (ss ≢ []) × All (λ s. s ≡ dead_letter) ss
Describes partial_success ss =
    All (λ s. s ≢ retrying) ss × Any (λ s. s ≡ success) ss × Any (λ s. s ≡ dead_letter) ss
Describes processing ss =
    Any (λ s. s ≡ retrying) ss
    ⊎ (All (λ s. s ≢ retrying) ss
        × Any (λ s. s ≡ DeliveryStatus.pending) ss
        × ¬ (Any (λ s. s ≡ success) ss × Any (λ s. s ≡ dead_letter) ss))
Describes EventStatus.pending ss = ⊥

counts_total :
    (ss : List DeliveryStatus)
    → count_of success ss
        + count_of dead_letter ss
        + count_of retrying ss
        + count_of DeliveryStatus.pending ss
      ≡ length ss
counts_total [] = omega arith
counts_total (s ∷ ss) = ground (arith, counts_total ss)

module _ (s : DeliveryStatus) (ss : List DeliveryStatus) where
  aggregate-Describes :
      (st : EventStatus) → aggregate_status (counted no_tally (s ∷ ss)) ≡ st → Describes st (s ∷ ss)
  unfolding aggregate_status
  aggregate-Describes completed e =
      (λ x. cc, (count-All success (s ∷ ss)).0 (ground (arith, counts_total (s ∷ ss))))
  aggregate-Describes failed e =
      (λ x. cc, (count-All dead_letter (s ∷ ss)).0 (ground (arith, counts_total (s ∷ ss))))
  aggregate-Describes partial_success e = (
    (count_none retrying (s ∷ ss)).0 (ground (arith, counts_total (s ∷ ss))),
    (count-Any success (s ∷ ss)).0 (ground (arith, counts_total (s ∷ ss))),
    (count-Any dead_letter (s ∷ ss)).0 (ground (arith, counts_total (s ∷ ss))),
  )
  aggregate-Describes processing e = elim (Bool-cases (ltb 0 (count_of retrying (s ∷ ss)))) [
    | inl some_left ↦ inl ((count-Any retrying (s ∷ ss)).0 (ground arith))
    | inr none_left ↦ inr (
      (count_none retrying (s ∷ ss)).0 (ground arith),
      (count-Any DeliveryStatus.pending (s ∷ ss)).0 (ground (arith, counts_total (s ∷ ss))),
      λ both. absurd (
          ground (
            arith,
            (count-Any success (s ∷ ss)).1 both.0,
            (count-Any dead_letter (s ∷ ss)).1 both.1,
          )),
    )
  ]
  aggregate-Describes no_targets e = ground arith
  aggregate-Describes EventStatus.pending e = ground arith

  Describes-aggregate :
      (st : EventStatus) → Describes st (s ∷ ss) → aggregate_status (counted no_tally (s ∷ ss)) ≡ st
  unfolding aggregate_status
  Describes-aggregate completed d =
      ground (arith, counts_total (s ∷ ss), (count-All success (s ∷ ss)).1 d.1)
  Describes-aggregate failed d =
      ground (arith, counts_total (s ∷ ss), (count-All dead_letter (s ∷ ss)).1 d.1)
  Describes-aggregate partial_success d = ground (
    arith,
    counts_total (s ∷ ss),
    (count_none retrying (s ∷ ss)).1 d.0,
    (count-Any success (s ∷ ss)).1 d.1,
    (count-Any dead_letter (s ∷ ss)).1 d.2,
  )
  Describes-aggregate processing (inl some_left) =
      ground (arith, (count-Any retrying (s ∷ ss)).1 some_left)
  Describes-aggregate processing (inr (left, waiting, both)) = ground (
    arith,
    counts_total (s ∷ ss),
    (count_none retrying (s ∷ ss)).1 left,
    (count-Any DeliveryStatus.pending (s ∷ ss)).1 waiting,
    λ (p : 0 < count_of success (s ∷ ss)) (q : 0 < count_of dead_letter (s ∷ ss)).
        both ((count-Any success (s ∷ ss)).0 p, (count-Any dead_letter (s ∷ ss)).0 q),
  )
  Describes-aggregate no_targets d = absurd (cc)
  Describes-aggregate EventStatus.pending d = absurd d

-- The code's status of an event is exactly the one that describes the statuses of its deliveries:
-- NO_TARGETS for none, COMPLETED or FAILED if all succeeded or all are dead letters,
-- PARTIAL_SUCCESS if both occur and nothing is retrying, and PROCESSING if one is retrying, or one
-- is PENDING and not both occur. It is never PENDING.
pub status_of_rows-Describes :
    (st : EventStatus) (ss : List DeliveryStatus)
    → (status_of_rows (group_by_status ss) ≡ st) ↔ Describes st ss
unfolding status_of_rows group_by_status
status_of_rows-Describes completed [] = (λ e. absurd (cc), λ d. absurd (d.0 refl))
status_of_rows-Describes failed [] = (λ e. absurd (cc), λ d. absurd (d.0 refl))
status_of_rows-Describes partial_success [] = (λ e. absurd (cc), λ d. absurd d.1)
status_of_rows-Describes processing [] = (λ e. absurd (cc), λ d. ground arith)
status_of_rows-Describes no_targets [] = (λ _. refl, λ _. refl)
status_of_rows-Describes EventStatus.pending [] = (λ e. absurd (cc), λ d. absurd d)
status_of_rows-Describes st (s ∷ ss) =
    rw (status_of_children s ss) (aggregate-Describes s ss st, Describes-aggregate s ss st)

-- A delivery that is PENDING does not keep its event PROCESSING: with a success and a dead letter
-- beside it, and nothing retrying, the event is already PARTIAL_SUCCESS.
pub partial_success_with_pending :
    (ss : List DeliveryStatus)
    → Any (λ s. s ≡ DeliveryStatus.pending) ss
    → All (λ s. s ≢ retrying) ss
    → Any (λ s. s ≡ success) ss
    → Any (λ s. s ≡ dead_letter) ss
    → status_of_rows (group_by_status ss) ≡ partial_success
partial_success_with_pending ss waiting left won lost =
    (status_of_rows-Describes partial_success ss).1 (left, won, lost)
