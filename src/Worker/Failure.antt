-- ===== src/Worker/Failure.antt =====
-- `handleFailure` of backend/src/worker/deliveryWorker.ts: what a failed delivery comes to.
use Prim.Native.Nat.{min}
use event_relay.Base.{
  ℕ, ◌+◌, ◌*◌, ◌^◌, ◌≤◌, ◌<◌, ◌≡◌, refl, ap, ◌⊎◌, inl, inr, [], Option, none, Text, ltb, Bool-cases,
  arith,
}
use event_relay.Store.{World, Metrics, Database, Endpoint, ok, M, ◌>>◌, execute, modify, pure}
use event_relay.Store.Atomic.{Returns, call_then, continue-Returns}
use event_relay.Metrics.{inc_dlq}
use event_relay.Backoff.{
  resolution, capped_backoff-le, BackoffOptions, calculate_full_jitter_delay,
  calculate_full_jitter_delay_bounds,
}
use event_relay.EventStatus.{set_event_status, sync_event_status}
use event_relay.EventStatus.Sync.{status_from}
use event_relay.Worker.Expected.{Follows, changed, waiting, given_up, set_event_status-Follows}
use event_relay.Worker.{Env, or_positive, update_delivery, to_retry, to_dead_letter, handle_failure}

-- The tables after a change, with the event's status brought up to date.
abbrev pub synced : ℕ → Database → Database
synced event_id db = set_event_status event_id (status_from event_id db) db

-- What an UPDATE of the delivery and the call of `syncEventStatus` after it leave.
abbrev pub Updated : ℕ → (Database → Database) → World → World → Type 0
Updated event_id f w v = (v.db ≡ synced event_id (f w.db)) × (v.metrics ≡ w.metrics)

pub sync_after :
    (event_id : ℕ) (f : Database → Database) (w v : World)
    → v.db ≡ f w.db
    → v.metrics ≡ w.metrics
    → Returns (λ _. Updated event_id f w) (sync_event_status event_id v)
unfolding sync_event_status
sync_after event_id f w v e m =
    call_then (λ _. Updated event_id f w) _ _ v
      λ rest.
        call_then (λ _. Updated event_id f w) _ _ (record v { faults = rest })
          λ rest'. (ap (synced event_id) e, m)

-- An UPDATE, the call of `syncEventStatus`, and what follows them.
pub update_then_sync :
    (event_id : ℕ) (f : Database → Database) (k : M (Unit {0})) (Q : World → Type 0) (w : World)
    → ((v : World) → Updated event_id f w v → Returns (λ _. Q) (k v))
    → Returns (λ _. Q) ((do execute f; sync_event_status event_id; k) w)
update_then_sync event_id f k Q w h =
    call_then (λ _. Q) (modify (λ v. record v { db = f v.db })) _ w
      λ rest.
        continue-Returns (λ _. Updated event_id f w) (λ _. Q) _ (λ _. k)
          (sync_after event_id f w (record w { db = f w.db; faults = rest }) refl refl) λ _. h

-- They return, if no statement fails.
pub update_then_sync_ok :
    (event_id : ℕ) (f : Database → Database) (k : M (Unit {0})) (w : World)
    → w.faults ≡ []
    → ((v : World) → (k v).0 ≡ ok tt)
    → ((do execute f; sync_event_status event_id; k) w).0 ≡ ok tt
unfolding sync_event_status
update_then_sync_ok event_id f k w e h = rw e (h _)

module _ (env : Env) (delivery_id event_id : ℕ) (endpoint : Endpoint) (attempt : ℕ)
    (status : Option ℕ) (message : Text) (duration : ℕ) (w : World) where
  -- The delivery waits for a retry in the attempt that failed, for no longer than the backoff of that
  -- attempt.
  abbrev pub Scheduled : World → Type 0
  Scheduled v =
      (next : ℕ) × (w.now ≤ next)
      × (next ≤ w.now + 1000 * min 600 (2 * 2 ^ attempt))
      × Follows event_id (changed delivery_id (waiting status message duration next attempt) w.db)
          w.db v.db
      × (v.db.circuit_breakers ≡ w.db.circuit_breakers)
      × (v.metrics ≡ w.metrics)

  -- The delivery is a dead letter, and is counted as one.
  abbrev pub Buried : World → Type 0
  Buried v =
      Follows event_id (changed delivery_id (given_up status message duration) w.db) w.db v.db
      × (v.db.circuit_breakers ≡ w.db.circuit_breakers)
      × (v.metrics.dlq_total ≡ w.metrics.dlq_total + 1)

  abbrev pub Handled : World → Type 0
  Handled v =
      ((attempt < or_positive endpoint.max_retries env.max_retries_default) × Scheduled v)
      ⊎ ((or_positive endpoint.max_retries env.max_retries_default ≤ attempt) × Buried v)

  abbrev default_options : BackoffOptions
  default_options = record { base_seconds = none; max_seconds = none }

  abbrev delay : ℕ
  delay = calculate_full_jitter_delay attempt default_options env.random

  delayed :
      env.random < resolution
      → (v : World)
      → Updated event_id
          (update_delivery delivery_id
            (to_retry status message duration (w.now + delay * 1000) attempt))
          w
          v
      → Scheduled v
  delayed r v u =
      let bounds = calculate_full_jitter_delay_bounds attempt default_options env.random r in
      (
        w.now + delay * 1000,
        omega arith,
        omega (arith, bounds.1, capped_backoff-le attempt),
        rw u.0 (
            set_event_status-Follows event_id delivery_id
              (waiting status message duration (w.now + delay * 1000) attempt) w.db),
        ap (λ (b : Database). b.circuit_breakers) u.0,
        u.1,
      )

  -- For a random number below 1: an attempt below the endpoint's limit of retries waits for another, for
  -- at most 600 seconds and at most 2 * 2 ^ attempt; the attempt at the limit, or beyond it, makes the
  -- delivery a DEAD_LETTER, and is counted. The code, the message and the duration are recorded. Either
  -- way the event has, afterwards, the status that the comment of syncEventStatus gives for its
  -- deliveries, unless one is PENDING beside a success and a dead letter with none RETRYING; and nothing
  -- else in the tables changes. So it is whenever the call returns, and it returns if no statement
  -- fails.
  pub handle_failure-Handled :
      env.random < resolution
      → Returns
          (λ _. Handled)
          (handle_failure env delivery_id event_id endpoint attempt status message duration w)
        × (w.faults ≡ []
            → (handle_failure env delivery_id event_id endpoint attempt status message duration w).0
              ≡ ok tt)
  unfolding handle_failure inc_dlq
  handle_failure-Handled r =
      elim (Bool-cases (ltb attempt (or_positive endpoint.max_retries env.max_retries_default))) [
        | inl more ↦ (
          rw more (
              update_then_sync event_id
                (update_delivery delivery_id
                  (to_retry status message duration (w.now + delay * 1000) attempt))
                (pure tt) Handled w λ v u. inl (ground arith, delayed r v u)),
          λ e. rw more (update_then_sync_ok event_id _ _ w e (λ v. refl)),
        )
        | inr last ↦ (
          rw last (
              update_then_sync event_id
                (update_delivery delivery_id (to_dead_letter status message duration))
                (modify inc_dlq) Handled w
                λ v u. inr (
                  ground arith,
                  (
                    rw u.0 (
                        set_event_status-Follows event_id delivery_id
                          (given_up status message duration) w.db),
                    ap (λ (b : Database). b.circuit_breakers) u.0,
                    ap (λ (m : Metrics). m.dlq_total + 1) u.1,
                  ),
                )),
          λ e. rw last (update_then_sync_ok event_id _ _ w e (λ v. refl)),
        )
      ]
