-- ===== src/EventStatus/Sync.antt =====
-- `syncEventStatus` of backend/src/db/eventStatus.ts: what it writes.
use event_relay.Base.{ℕ, ◌≡◌, refl, [], arith}
use event_relay.Store.{World, Database, EventStatus, ok, modify}
use event_relay.Store.Atomic.{Returns, call_then}
use event_relay.Store.Frame.{Keeps, Blind, call-Keeps, continue-Keeps, query-Keeps}
use event_relay.EventStatus.{
  set_event_status, status_of_rows, group_by_status, child_statuses, sync_event_status,
}

-- The status that the event's deliveries give it.
abbrev pub status_from : ℕ → Database → EventStatus
status_from event_id db = status_of_rows (group_by_status (child_statuses event_id db.deliveries))

-- If it returns, the event has the status of its deliveries, it is the one returned, and no other
-- column has changed.
abbrev pub Synced : ℕ → Database → EventStatus → World → Type 0
Synced event_id db s w =
    (s ≡ status_from event_id db) × (w.db ≡ set_event_status event_id (status_from event_id db) db)

pub sync_event_status-Returns :
    (event_id : ℕ) (w : World) → Returns (Synced event_id w.db) (sync_event_status event_id w)
unfolding sync_event_status
sync_event_status-Returns event_id w =
    call_then (Synced event_id w.db) _ _ w λ rest.
      call_then (Synced event_id w.db) _ _ (record w { faults = rest }) λ rest'. (refl, refl)

-- Where no call fails, `syncEventStatus` gives the event the status that its deliveries lead to,
-- returns it, and changes nothing else.
pub sync_event_status_lem :
    (event_id : ℕ) (w : World)
    → w.faults ≡ []
    → sync_event_status event_id w ≡ (
      ok (status_from event_id w.db),
      record w { db = set_event_status event_id (status_from event_id w.db) w.db },
    )
unfolding sync_event_status
sync_event_status_lem event_id w e = ground arith

pub sync_event_status-Keeps :
    {P : World → Type 0} (b : Blind P) (event_id : ℕ) → Keeps P (sync_event_status event_id)
unfolding sync_event_status
sync_event_status-Keeps {P} b event_id w h = continue-Keeps P _ _ (query-Keeps b _ w h) λ rows v g.
    continue-Keeps P _ _
      (call-Keeps b
        (modify (λ v. record v { db = set_event_status event_id (status_of_rows rows) v.db }))
        (λ u i. b.to_rows u _ _ i) v g)
      λ _ u i. i
