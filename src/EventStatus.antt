-- ===== src/EventStatus.antt =====
-- backend/src/db/eventStatus.ts: the status of an event follows from those of its deliveries.
pub mod Aggregate
pub mod Documented
pub mod Sync
mod Tests
use event_relay.Base.{
  ℕ, suc, ◌+◌, Bool, ◌&&◌, ltb, ◌==◌, if◌then◌else◌, List, [], ◌∷◌, map, select, update,
}
use event_relay.Store.{
  Database, Delivery, Event, DeliveryStatus, retrying, success, dead_letter, delivery_status_eq,
  EventStatus, processing, completed, failed, partial_success, no_targets, M, ◌>>=◌, ◌>>◌, pure,
  query, execute,
}

-- One more row of a status, in the groups with their counts.
unfoldable pub count_status : DeliveryStatus → List (DeliveryStatus × ℕ) → List (DeliveryStatus × ℕ)
count_status s [] = (s, 1) ∷ []
count_status s ((t, n) ∷ rows) =
    if delivery_status_eq s t then (t, n + 1) ∷ rows else (t, n) ∷ count_status s rows

-- `SELECT status, COUNT(*) … GROUP BY status`.
unfoldable pub group_by_status : List DeliveryStatus → List (DeliveryStatus × ℕ)
group_by_status [] = []
group_by_status (s ∷ ss) = count_status s (group_by_status ss)

-- The statuses of an event's deliveries.
unfoldable pub child_statuses : ℕ → List Delivery → List DeliveryStatus
child_statuses event_id ds = map (λ d. d.status) (select (λ d. d.event_id == event_id) ds)

pub record Tally : Type 0 where
  pub success_count : ℕ
  pub dead_letter_count : ℕ
  pub retrying_count : ℕ
  pub total : ℕ

abbrev pub no_tally : Tally
no_tally = record { success_count = 0; dead_letter_count = 0; retrying_count = 0; total = 0 }

-- The body of the loop over the groups.
unfoldable pub add_row : Tally → DeliveryStatus × ℕ → Tally
add_row t (success, c) = record t { success_count = t.success_count + c; total = t.total + c }
add_row t (dead_letter, c) = record t {
  dead_letter_count = t.dead_letter_count + c;
  total = t.total + c;
}
add_row t (retrying, c) = record t { retrying_count = t.retrying_count + c; total = t.total + c }
add_row t (_, c) = record t { total = t.total + c }

unfoldable pub tally : Tally → List (DeliveryStatus × ℕ) → Tally
tally t [] = t
tally t (r ∷ rows) = tally (add_row t r) rows

-- The chain of tests on the counts.
unfoldable pub aggregate_status : Tally → EventStatus
aggregate_status t =
    if ltb 0 t.retrying_count
    then processing
    else (if t.success_count == t.total
        then completed
        else (if t.dead_letter_count == t.total
            then failed
            else (if ltb 0 t.success_count && ltb 0 t.dead_letter_count
                then partial_success
                else processing)))

unfoldable pub status_of_rows : List (DeliveryStatus × ℕ) → EventStatus
unfolding aggregate_status tally
status_of_rows [] = no_targets
status_of_rows (r ∷ rows) = aggregate_status (tally no_tally (r ∷ rows))

-- `UPDATE events SET status = $1 WHERE id = $2`.
abbrev pub set_event_status : ℕ → EventStatus → Database → Database
set_event_status event_id s db = record db {
  events =
      update (λ (e : Event). e.id == event_id) (λ (e : Event). record e { status = s }) db.events;
}

unfoldable pub sync_event_status : ℕ → M EventStatus
unfolding status_of_rows group_by_status child_statuses
sync_event_status event_id = do
  rows ← query (λ db. group_by_status (child_statuses event_id db.deliveries))
  execute (set_event_status event_id (status_of_rows rows))
  pure (status_of_rows rows)
