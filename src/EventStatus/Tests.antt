-- ===== src/EventStatus/Tests.antt =====
-- The status of events with three deliveries.
use event_relay.Base.{◌≡◌, ◌↔◌, inl, inr, [], ◌∷◌, List}
use event_relay.Store.{DeliveryStatus, success, dead_letter, processing, partial_success}
use event_relay.EventStatus.{group_by_status, status_of_rows}
use event_relay.EventStatus.Aggregate.{Describes, status_of_rows-Describes}
use event_relay.EventStatus.Documented.{Documented, Disputed, status_of_rows-Documented}

abbrev disputed_statuses : List DeliveryStatus
disputed_statuses = success ∷ dead_letter ∷ DeliveryStatus.pending ∷ []

partial_with_pending :
    (status_of_rows (group_by_status disputed_statuses) ≡ partial_success)
    ↔ Describes partial_success disputed_statuses
partial_with_pending = status_of_rows-Describes partial_success disputed_statuses

abbrev statuses : List DeliveryStatus
statuses = success ∷ success ∷ DeliveryStatus.pending ∷ []

nothing_lost : ¬ (Disputed statuses)
nothing_lost (waiting, left, won, lost) = elim lost [
  | inl e ↦ cc
  | inr (inl e) ↦ cc
  | inr (inr (inl e)) ↦ cc
  | inr (inr (inr e)) ↦ e
]

status_of_rows-Documented_example :
    (status_of_rows (group_by_status statuses) ≡ processing) ↔ Documented processing statuses
status_of_rows-Documented_example = status_of_rows-Documented processing statuses nothing_lost
