-- ===== src/Worker/Stuck.antt =====
-- `processJob` of backend/src/worker/deliveryWorker.ts, and a breaker on trial whose probe never
-- reports.
use event_relay.Base.{
  ℕ, ◌≡◌, refl, ap, ◌∙◌, Bool, true, false, Option, none, some, Text, find, find_holds, ◌==◌,
  ==_iff,
}
use event_relay.Store.{
  World, Endpoint, Event, DeliveryJob, CircuitRecord, half_open_probing, continue,
}
use event_relay.Store.Atomic.{Ends, call_then_Ends, continue-Ends}
use event_relay.Store.Frame.{Keeps, Leaves, Blind, call-Keeps, continue-Keeps}
use event_relay.Ssrf.{refused, validate_endpoint_url}
use event_relay.Circuit.{is_of, get_circuit, reads, admit, can_execute}
use event_relay.Worker.{
  Env, acknowledge_job, fail, after_ssrf, after_circuit, after_limit, with_rows, process_job,
}
use event_relay.Worker.Frame.{fail-Keeps, ask_limiter-Keeps, ask_again-Keeps}

module _ (env : Env) (message_id : ℕ) (stream_name : Text) (job : DeliveryJob) (w : World) where
  -- No breaker has changed, and no request went out.
  abbrev pub Idle : World → Type 0
  Idle v = (v.db.circuit_breakers ≡ w.db.circuit_breakers) × (v.posts ≡ w.posts)

  Idle-Blind : Blind Idle
  Idle-Blind = record {
    to_faults = λ v fs h. h;
    to_metrics = λ v m h. h;
    to_clock = λ v t h. h;
    to_buckets = λ v bs h. h;
    to_rows = λ v es ds h. h;
  }

  acknowledge-Keeps : Keeps Idle (acknowledge_job env message_id stream_name job)
  unfolding acknowledge_job
  acknowledge-Keeps = call-Keeps Idle-Blind _ (λ v h. h)

  fail_acknowledge :
      (endpoint : Endpoint) (status : Option ℕ) (message : Text) (v : World)
      → Idle v
      → Leaves Idle (
          continue
            (fail env message_id stream_name job endpoint status message 0 v)
            (λ _. acknowledge_job env message_id stream_name job))
  fail_acknowledge endpoint status message v h =
      continue-Keeps Idle _ _
        (fail-Keeps Idle-Blind env message_id stream_name job endpoint status message 0 v h)
        λ _. acknowledge-Keeps

  -- A worker that was let through, and whose URL is then refused, reports nothing to the breaker,
  -- whichever calls fail: the breakers are as it found them, and no request went out.
  pub after_circuit-Idle :
      (event : Event) (endpoint : Endpoint) (message : Text)
      → validate_endpoint_url env.net endpoint.url ≡ refused message
      → Leaves Idle (after_circuit env message_id stream_name job event endpoint true w)
  unfolding after_circuit after_ssrf
  after_circuit-Idle event endpoint message e = rw e (fail_acknowledge endpoint _ _ w (refl, refl))

  module _ (r : CircuitRecord) (found : find (is_of job.endpoint_id) w.db.circuit_breakers ≡ some r)
      (trial : r.state ≡ half_open_probing) where
    abbrev Read : CircuitRecord → World → Type 0
    Read c u = (c ≡ r) × Idle u

    abbrev Refused : Bool → World → Type 0
    Refused allowed u = (allowed ≡ false) × Idle u

    reads_trial : (v : World) → Idle v → Ends Read Idle (get_circuit reads job.endpoint_id v)
    unfolding get_circuit
    reads_trial v h =
        call_then_Ends Read Idle _ _ v (λ rest. h)
          λ rest.
            let here : find (is_of job.endpoint_id) v.db.circuit_breakers ≡ some r =
              ap (find (is_of job.endpoint_id)) h.0 ∙ found in
            rw here (refl, h)

    refuses : (v : World) → Idle v → Ends Refused Idle (can_execute job.endpoint_id v)
    unfolding can_execute admit
    refuses v h =
        continue-Ends Read Refused Idle _ _ (reads_trial v h) λ c u q. rw (q.0, trial) (refl, q.1)

    after_limit-Idle :
        (event : Event) (endpoint : Endpoint) (allowed : Bool) (v : World)
        → endpoint.id ≡ job.endpoint_id
        → Idle v
        → Leaves Idle (after_limit env message_id stream_name job event endpoint allowed v)
    unfolding after_limit after_circuit
    after_limit-Idle event endpoint false v e h = fail_acknowledge endpoint _ _ v h
    after_limit-Idle event endpoint true v e h = rw e (
        continue-Ends Refused (λ _. Idle) Idle _ _ (refuses v h)
          λ allowed u q. rw q.0 (fail_acknowledge endpoint _ _ u q.1))

    with_rows-Idle :
        (event : Option Event) (endpoint : Option Endpoint) (v : World)
        → ((e : Endpoint) → endpoint ≡ some e → e.id ≡ job.endpoint_id)
        → Idle v
        → Leaves Idle (with_rows env message_id stream_name job event endpoint v)
    unfolding with_rows
    with_rows-Idle (some event) (some endpoint) v own h =
        continue-Keeps Idle _ _
          (ask_limiter-Keeps Idle-Blind env message_id stream_name job endpoint v h)
          λ first u q.
            continue-Keeps Idle _ _
              (ask_again-Keeps Idle-Blind env message_id stream_name job endpoint first u q)
              λ allowed x g. after_limit-Idle event endpoint allowed x (own endpoint refl) g
    with_rows-Idle none endpoint v own h = acknowledge-Keeps v h
    with_rows-Idle (some event) none v own h = acknowledge-Keeps v h

    -- While the breaker of a job's endpoint is on trial, no job for that endpoint sends a request or
    -- changes any breaker, whichever calls fail and whatever the time is.
    pub process_job-Idle : Leaves Idle (process_job env message_id stream_name job w)
    unfolding process_job
    process_job-Idle =
        call_then_Ends (λ _. Idle) Idle _ _ w (λ rest. (refl, refl))
          λ rest.
            call_then_Ends (λ _. Idle) Idle _ _ (record w { faults = rest }) (λ rest'. (refl, refl))
              λ rest'.
                with_rows-Idle _ _ (record w { faults = rest' })
                  (λ e h.
                    (==_iff e.id job.endpoint_id).0
                      (find_holds (λ (x : Endpoint). x.id == job.endpoint_id) w.db.endpoints e h))
                  (refl, refl)
