-- ===== src/Scheduler/Poll.antt =====
-- `pollAndReenqueue` of backend/src/worker/retryScheduler.ts as a whole.
use event_relay.Base.{
  ℕ, ◌≤◌, ◌≡◌, refl, ◌⊎◌, inl, inr, Bool, true, false, not, ◌&&◌, Option, none, some, List, [], ◌∷◌,
  length, select, All, All-take, arith, ltb, Bool-cases,
}
use event_relay.Base.Sort.{All-sort_by, IsSorted, IsSorted-first, sort_by-IsSorted}
use event_relay.Store.{
  World, Database, Delivery, Event, Endpoint, retrying, delivery_status_eq_iff, Result, ok, thrown,
  continue, recover, pure,
}
use event_relay.Store.Atomic.{
  Returns, Commits, call_then, continue-Returns, with_transaction-Commits,
}
use event_relay.Scheduler.{
  DueRow, is_due_at, is_due, due_time, row_of, joined, join_rows, claim_due, poll_transaction,
  Polled, poll_and_reenqueue,
}
use event_relay.Scheduler.Rows.{AllMoved, reenqueue_all-Returns}

module _ (locked : ℕ → Bool) (w : World) where
  abbrev pub claimed : List DueRow
  claimed = claim_due locked w.now w.db

  -- All the claimed rows were taken, or none, and the poll says how many.
  abbrev pub Polls : Result Polled × World → Type 0
  Polls r =
      (polled : Polled) × (r.0 ≡ ok polled)
      × (polled.is_polling ≡ false)
      × (polled.poked ≡ ltb 0 polled.processed)
      × (((polled.processed ≡ length claimed) × AllMoved claimed w.db r.1.db)
          ⊎ ((polled.processed ≡ 0) × (r.1.db ≡ w.db)))

  abbrev Took : ℕ → World → Type 0
  Took n v = (n ≡ length claimed) × AllMoved claimed w.db v.db

  poll_transaction-Returns :
      (fs : List Bool) → Returns Took (poll_transaction locked (record w { faults = fs }))
  unfolding poll_transaction
  poll_transaction-Returns fs =
      call_then Took _ _ (record w { faults = fs })
        λ rest.
          continue-Returns (λ _ v. AllMoved claimed w.db v.db) Took _ _
            (reenqueue_all-Returns claimed (record w { faults = rest })) λ _ v h. (refl, h)

  polled :
      (r : Result ℕ × World)
      → Commits Took w.db r
      → Polls (
          continue
            (recover r (pure 0))
            (λ n. pure (record { processed = n; poked = ltb 0 n; is_polling = false })))
  polled (ok n, v) (e, h) = (_, refl, refl, refl, inl (e, h))
  polled (thrown, v) e = (_, refl, refl, refl, inr (refl, e))

  -- A poll, with none under way, never throws, whichever of its calls fail, and leaves `isPolling` false.
  -- Either every row that it claims has moved, one after the other, and their number is returned, or the
  -- tables are as they were and the number is 0: a delivery at its limit has become a DEAD_LETTER with
  -- that message, and another has its attempt number and one, no time for a retry, and an outbox row
  -- that announces that attempt. The publisher is poked exactly if the number is not 0.
  pub poll_and_reenqueue-Polls : Polls (poll_and_reenqueue false locked w)
  unfolding poll_and_reenqueue
  poll_and_reenqueue-Polls = polled _ (
      with_transaction-Commits Took (poll_transaction locked) w (λ a v fs h. h)
        poll_transaction-Returns)

-- The delivery of a claimed row: retrying, due, and held by nobody else.
abbrev pub IsDue : (ℕ → Bool) → ℕ → Database → DueRow → Type 0
IsDue locked now db row =
    (row.due_at ≤ now)
    × (locked row.id ≡ false)
    × ((d : Delivery) × (d.status ≡ retrying)
        × (d.next_retry_at ≡ some row.due_at)
        × (d.id ≡ row.id)
        × (d.event_id ≡ row.event_id)
        × (d.attempt_number ≡ row.attempt_number))

module _ (locked : ℕ → Bool) (now : ℕ) (db : Database) where
  abbrev is_ready : Delivery → Bool
  is_ready d = is_due now d && not (locked d.id)

  due_time_lem :
      (next : Option ℕ)
      → is_due_at now next ≡ true
      → (next ≡ some (due_time next)) × (due_time next ≤ now)
  due_time_lem none e = absurd (cc)
  due_time_lem (some t) e = (refl, ground arith)

  is_ready-IsDue :
      (d : Delivery) (e : Event) (ep : Endpoint)
      → is_ready d ≡ true
      → IsDue locked now db (row_of d e ep)
  is_ready-IsDue d e ep h =
      let due = due_time_lem d.next_retry_at (ground arith) in
      (
        due.1,
        ground arith,
        (d, (delivery_status_eq_iff d.status retrying).0 (ground arith), due.0, refl, refl, refl),
      )

  joined-IsDue :
      (d : Delivery) (e : Option Event) (ep : Option Endpoint) (rows : List DueRow)
      → is_ready d ≡ true
      → All (IsDue locked now db) rows
      → All (IsDue locked now db) (joined d e ep rows)
  joined-IsDue d none ep rows h k = k
  joined-IsDue d (some e) none rows h k = k
  joined-IsDue d (some e) (some ep) rows h k = (is_ready-IsDue d e ep h, k)

  join_rows-IsDue :
      (ds : List Delivery)
      → All (λ d. is_ready d ≡ true) ds
      → All (IsDue locked now db) (join_rows db ds)
  unfolding join_rows
  join_rows-IsDue [] h = tt
  join_rows-IsDue (d ∷ ds) h = joined-IsDue d _ _ _ h.0 (join_rows-IsDue ds h.1)

  select-is_ready : (ds : List Delivery) → All (λ d. is_ready d ≡ true) (select is_ready ds)
  select-is_ready [] = tt
  select-is_ready (d ∷ ds) = elim (Bool-cases (is_ready d)) [
    | inl e ↦ rw e (e, select-is_ready ds)
    | inr e ↦ rw e (select-is_ready ds)
  ]

  -- The rows that a poll claims are of deliveries that are retrying, due, and held by no other
  -- transaction, the earliest first.
  pub claim_due-IsDue :
      All (IsDue locked now db) (claim_due locked now db)
      × IsSorted (λ (r : DueRow). r.due_at) (claim_due locked now db)
  unfolding claim_due
  claim_due-IsDue = (
    All-take (IsDue locked now db) 50 _ (
        All-sort_by (λ (r : DueRow). r.due_at) (IsDue locked now db) _
          (join_rows-IsDue _ (select-is_ready db.deliveries))),
    IsSorted-first (λ (r : DueRow). r.due_at) 50 _ (sort_by-IsSorted (λ (r : DueRow). r.due_at) _),
  )
