-- ===== src/EventStatus/Documented.antt =====
-- The rules that the comment on `syncEventStatus` of backend/src/db/eventStatus.ts gives, and the code.
use event_relay.Base.{
  ◌≡◌, ◌≢◌, ◌⊎◌, refl, inl, inr, ◌↔◌, List, [], ◌∷◌, All, Any, arith, ltb, Bool-cases,
}
use event_relay.Store.{
  DeliveryStatus, retrying, success, dead_letter, EventStatus, processing, completed, failed,
  partial_success, no_targets,
}
use event_relay.EventStatus.{group_by_status, status_of_rows}
use event_relay.EventStatus.Aggregate.{
  Describes, count_of, count-Any, count_none, status_of_rows-Describes,
}

-- The rules of the comment on `syncEventStatus`, by which anything that is RETRYING or PENDING keeps the
-- event PROCESSING.
abbrev pub Documented : EventStatus → List DeliveryStatus → Type 0
Documented no_targets ss = ss ≡ []
Documented completed ss = (ss ≢ []) × All (λ s. s ≡ success) ss
Documented failed ss = (ss ≢ []) × All (λ s. s ≡ dead_letter) ss
Documented processing ss = Any (λ s. s ≡ retrying) ss ⊎ Any (λ s. s ≡ DeliveryStatus.pending) ss
Documented partial_success ss =
    Any (λ s. s ≡ success) ss
    × Any (λ s. s ≡ dead_letter) ss
    × All (λ s. s ≢ retrying) ss
    × All (λ s. s ≢ DeliveryStatus.pending) ss
Documented EventStatus.pending ss = ⊥

-- Two of the rules apply: one is PENDING, and a success and a dead letter are there with nothing
-- RETRYING.
abbrev pub Disputed : List DeliveryStatus → Type 0
Disputed ss =
    Any (λ s. s ≡ DeliveryStatus.pending) ss
    × All (λ s. s ≢ retrying) ss
    × Any (λ s. s ≡ success) ss
    × Any (λ s. s ≡ dead_letter) ss

Any-or-All :
    (s : DeliveryStatus) (ss : List DeliveryStatus) → Any (λ x. x ≡ s) ss ⊎ All (λ x. x ≢ s) ss
Any-or-All s ss = elim (Bool-cases (ltb 0 (count_of s ss))) [
  | inl e ↦ inl ((count-Any s ss).0 (ground arith))
  | inr e ↦ inr ((count_none s ss).0 (ground arith))
]

Describes-Documented :
    (st : EventStatus) (ss : List DeliveryStatus)
    → ¬ (Disputed ss)
    → Describes st ss ↔ Documented st ss
Describes-Documented no_targets ss clear = (λ d. d, λ d. d)
Describes-Documented completed ss clear = (λ d. d, λ d. d)
Describes-Documented failed ss clear = (λ d. d, λ d. d)
Describes-Documented EventStatus.pending ss clear = (λ d. d, λ d. d)
Describes-Documented partial_success ss clear = (
  λ (left, won, lost). (
    won,
    lost,
    left,
    elim (Any-or-All DeliveryStatus.pending ss) [
      | inl waiting ↦ absurd (clear (waiting, left, won, lost))
      | inr none_waits ↦ none_waits
    ],
  ),
  λ (won, lost, left, none_waits). (left, won, lost),
)
Describes-Documented processing ss clear = (described, documented)
  where
    described : Describes processing ss → Documented processing ss
    described (inl some_left) = inl some_left
    described (inr (left, waiting, both)) = inr waiting

    documented : Documented processing ss → Describes processing ss
    documented (inl some_left) = inl some_left
    documented (inr waiting) = elim (Any-or-All retrying ss) [
      | inl some_left ↦ inl some_left
      | inr left ↦ inr (left, waiting, λ both. clear (waiting, left, both.0, both.1))
    ]

-- The code's status of an event is exactly the one that its comment gives for the statuses of the
-- deliveries: NO_TARGETS for none, COMPLETED or FAILED if all succeeded or all are dead letters,
-- PROCESSING if one is RETRYING or PENDING, and PARTIAL_SUCCESS if a success and a dead letter are there
-- and nothing else; unless two of these rules apply at once, with one PENDING beside a success and a dead
-- letter and none RETRYING.
pub status_of_rows-Documented :
    (st : EventStatus) (ss : List DeliveryStatus)
    → ¬ (Disputed ss)
    → (status_of_rows (group_by_status ss) ≡ st) ↔ Documented st ss
status_of_rows-Documented st ss clear =
    let d = status_of_rows-Describes st ss in
    let e = Describes-Documented st ss clear in (λ h. e.0 (d.0 h), λ h. d.1 (e.1 h))

abbrev pub DocumentedOrDisputed : EventStatus → List DeliveryStatus → Type 0
DocumentedOrDisputed st ss = Documented st ss ⊎ Disputed ss

Disputed-or-not : (ss : List DeliveryStatus) → Disputed ss ⊎ (¬ (Disputed ss))
Disputed-or-not ss = elim (Any-or-All DeliveryStatus.pending ss) [
  | inr none_waits ↦ inr (λ d. none_of DeliveryStatus.pending ss d.0 none_waits)
  | inl waiting ↦ elim (Any-or-All retrying ss) [
    | inl some_left ↦ inr (λ d. none_of retrying ss some_left d.1)
    | inr left ↦ elim (Any-or-All success ss) [
      | inr none_won ↦ inr (λ d. none_of success ss d.2 none_won)
      | inl won ↦ elim (Any-or-All dead_letter ss) [
        | inr none_lost ↦ inr (λ d. none_of dead_letter ss d.3 none_lost)
        | inl lost ↦ inl (waiting, left, won, lost)
      ]
    ]
  ]
]
  where
    none_of :
        (s : DeliveryStatus) (xs : List DeliveryStatus)
        → Any (λ x. x ≡ s) xs
        → All (λ x. x ≢ s) xs
        → ⊥
    none_of s [] h k = h
    none_of s (x ∷ xs) (inl e) k = k.0 e
    none_of s (x ∷ xs) (inr h) k = none_of s xs h k.1

-- The code's status of an event is the one that its comment gives, or the case is the disputed one.
pub status_of_rows-DocumentedOrDisputed :
    (ss : List DeliveryStatus) → DocumentedOrDisputed (status_of_rows (group_by_status ss)) ss
status_of_rows-DocumentedOrDisputed ss = elim (Disputed-or-not ss) [
  | inl d ↦ inr d
  | inr clear ↦ inl ((status_of_rows-Documented _ ss clear).0 refl)
]
