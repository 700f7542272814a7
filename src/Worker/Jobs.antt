-- ===== src/Worker/Jobs.antt =====
-- `processJob` of backend/src/worker/deliveryWorker.ts: its requests and its acknowledgements.
use event_relay.Base.{
  ℕ, ◌+◌, ◌≡◌, refl, ap, ◌⊎◌, inl, inr, Bool, true, false, Option, none, some, ◌∷◌, Text, find,
  ◌==◌,
}
use event_relay.Store.{
  World, Endpoint, Event, DeliveryJob, Post, Result, ok, thrown, continue, then_finally,
}
use event_relay.Store.Atomic.{Ends, attempt_rule, call_then_Ends, continue-Ends, Ends-weaken}
use event_relay.Store.Frame.{Leaves, Blind, BlindToBreakers}
use event_relay.Ssrf.{Verdict, valid, refused, validate_endpoint_url}
use event_relay.StreamQueue.{stream_or, acknowledge_entry}
use event_relay.Circuit.Frame.{can_execute-Keeps}
use event_relay.Worker.{
  Env, outcome_duration, request, send, dispatch, acknowledge_job, fail, after_ssrf, after_circuit,
  after_limit, with_rows, process_job,
}
use event_relay.HmacSigner.{sign}
use event_relay.Worker.Expected.{signed_post}
use event_relay.Worker.Frame.{fail-Keeps, settle-Keeps, ask_limiter-Keeps, ask_again-Keeps}

abbrev pub event_row : ℕ → World → Option Event
event_row id w = find (λ (e : Event). e.id == id) w.db.events

abbrev pub endpoint_row : ℕ → World → Option Endpoint
endpoint_row id w = find (λ (e : Endpoint). e.id == id) w.db.endpoints

module _ (env : Env) (message_id : ℕ) (stream_name : Text) (job : DeliveryJob) (w : World) where
  -- One request went out: the signed one, with the job's event, to the URL of its endpoint, which is valid.
  abbrev pub OnePost : World → Type 0
  OnePost v =
      (event : Event) × (endpoint : Endpoint) × (t : ℕ) × (event_row job.event_id w ≡ some event)
      × (endpoint_row job.endpoint_id w ≡ some endpoint)
      × (validate_endpoint_url env.net endpoint.url ≡ valid)
      × (v.posts ≡ signed_post env job event endpoint t ∷ w.posts)

  abbrev pub Posts : World → Type 0
  Posts v = (v.posts ≡ w.posts) ⊎ OnePost v

  abbrev pub Unacknowledged : World → Type 0
  Unacknowledged v = v.redis.acknowledged ≡ w.redis.acknowledged

  abbrev pub Acknowledged : World → Type 0
  Acknowledged v =
      v.redis.acknowledged
      ≡ (stream_or stream_name env.base_stream, message_id) ∷ w.redis.acknowledged

  -- A job that returns has acknowledged its message; one that throws may have.
  abbrev pub Done : World → Type 0
  Done v = Posts v × Acknowledged v

  abbrev pub Broken : World → Type 0
  Broken v = Posts v × (Unacknowledged v ⊎ Acknowledged v)

  abbrev Quiet : World → Type 0
  Quiet v = (v.posts ≡ w.posts) × Unacknowledged v

  abbrev Busy : World → Type 0
  Busy v = Posts v × Unacknowledged v

  Quiet-Blind : Blind Quiet
  Quiet-Blind = record {
    to_faults = λ v fs h. h;
    to_metrics = λ v m h. h;
    to_clock = λ v t h. h;
    to_buckets = λ v bs h. h;
    to_rows = λ v es ds h. h;
  }

  Quiet-BlindToBreakers : BlindToBreakers Quiet
  Quiet-BlindToBreakers = record { to_breakers = λ v rs h. h }

  Busy-Blind : Blind Busy
  Busy-Blind = record {
    to_faults = λ v fs h. h;
    to_metrics = λ v m h. h;
    to_clock = λ v t h. h;
    to_buckets = λ v bs h. h;
    to_rows = λ v es ds h. h;
  }

  Busy-BlindToBreakers : BlindToBreakers Busy
  Busy-BlindToBreakers = record { to_breakers = λ v rs h. h }

  Quiet-Broken : (v : World) → Quiet v → Broken v
  Quiet-Broken v h = (inl h.0, inl h.1)

  acknowledge-Ends :
      (v : World)
      → Busy v
      → Ends (λ _. Done) Broken (acknowledge_job env message_id stream_name job v)
  unfolding acknowledge_job
  acknowledge-Ends v h =
      attempt_rule (Ends (λ _. Done) Broken)
        (acknowledge_entry (stream_or stream_name env.base_stream) message_id) v.faults v
        (λ rest. (h.0, inl h.1))
        (λ rest. (h.0, ap (◌∷◌ (stream_or stream_name env.base_stream, message_id)) h.1))

  -- A failure that is recorded, and then acknowledged.
  fail_acknowledge :
      (endpoint : Endpoint) (status : Option ℕ) (message : Text) (v : World)
      → Quiet v
      → Ends
          (λ _. Done)
          Broken
          (continue
            (fail env message_id stream_name job endpoint status message 0 v)
            (λ _. acknowledge_job env message_id stream_name job))
  fail_acknowledge endpoint status message v h =
      continue-Ends (λ _. Quiet) (λ _. Done) Broken _ _
        (Ends-weaken (λ _. Quiet) Quiet Broken _ Quiet-Broken
          (fail-Keeps Quiet-Blind env message_id stream_name job endpoint status message 0 v h))
        λ _ u q. acknowledge-Ends u (inl q.0, q.1)

  finally_acknowledge :
      (r : Result (Unit {0}) × World)
      → Leaves Busy r
      → Ends (λ _. Done) Broken (then_finally r (acknowledge_job env message_id stream_name job))
  finally_acknowledge (ok _, v) h =
      continue-Ends (λ _. Done) (λ _. Done) Broken _ _ (acknowledge-Ends v h) λ _ u d. d
  finally_acknowledge (thrown, v) h =
      continue-Ends (λ _. Done) (λ _. Done) Broken _ _ (acknowledge-Ends v h)
        λ _ u d. (d.0, inr d.1)

  module _ (event : Event) (endpoint : Endpoint) (e : event_row job.event_id w ≡ some event)
      (p : endpoint_row job.endpoint_id w ≡ some endpoint) where
    dispatch-Leaves :
        (v : World)
        → validate_endpoint_url env.net endpoint.url ≡ valid
        → Quiet v
        → Leaves Busy (dispatch env message_id stream_name job event endpoint v)
    unfolding dispatch send request sign
    dispatch-Leaves v x h =
        let post : Post = request env message_id stream_name job event endpoint v.now in
        settle-Keeps Busy-Blind env message_id stream_name job Busy-BlindToBreakers endpoint
          (env.http post)
          (record v { posts = post ∷ v.posts; now = v.now + outcome_duration (env.http post) })
          (inr (event, endpoint, v.now, e, p, x, ap (◌∷◌ post) h.0), h.1)

    after_ssrf-Ends :
        (verdict : Verdict) (v : World)
        → validate_endpoint_url env.net endpoint.url ≡ verdict
        → Quiet v
        → Ends
            (λ _. Done)
            Broken
            (after_ssrf env message_id stream_name job event endpoint verdict v)
    unfolding after_ssrf
    after_ssrf-Ends (refused message) v x h = fail_acknowledge endpoint _ _ v h
    after_ssrf-Ends valid v x h =
        finally_acknowledge (dispatch env message_id stream_name job event endpoint v)
          (dispatch-Leaves v x h)

    after_limit-Ends :
        (allowed : Bool) (v : World)
        → Quiet v
        → Ends
            (λ _. Done)
            Broken
            (after_limit env message_id stream_name job event endpoint allowed v)
    unfolding after_limit after_circuit
    after_limit-Ends false v h = fail_acknowledge endpoint _ _ v h
    after_limit-Ends true v h =
        continue-Ends (λ _. Quiet) (λ _. Done) Broken _ _
          (Ends-weaken (λ _. Quiet) Quiet Broken _ Quiet-Broken
            (can_execute-Keeps Quiet-Blind Quiet-BlindToBreakers endpoint.id v h))
          go
      where
        go :
            (can_call : Bool) (u : World)
            → Quiet u
            → Ends
                (λ _. Done)
                Broken
                (after_circuit env message_id stream_name job event endpoint can_call u)
        go false u q = fail_acknowledge endpoint _ _ u q
        go true u q = after_ssrf-Ends _ u refl q

  with_rows-Ends :
      (event : Option Event) (endpoint : Option Endpoint) (v : World)
      → event_row job.event_id w ≡ event
      → endpoint_row job.endpoint_id w ≡ endpoint
      → Quiet v
      → Ends (λ _. Done) Broken (with_rows env message_id stream_name job event endpoint v)
  unfolding with_rows
  with_rows-Ends (some event) (some endpoint) v e p h =
      continue-Ends (λ _. Quiet) (λ _. Done) Broken _ _
        (Ends-weaken (λ _. Quiet) Quiet Broken _ Quiet-Broken
          (ask_limiter-Keeps Quiet-Blind env message_id stream_name job endpoint v h))
        λ first u q.
          continue-Ends (λ _. Quiet) (λ _. Done) Broken _ _
            (Ends-weaken (λ _. Quiet) Quiet Broken _ Quiet-Broken
              (ask_again-Keeps Quiet-Blind env message_id stream_name job endpoint first u q))
            (after_limit-Ends event endpoint e p)
  with_rows-Ends none endpoint v e p h = acknowledge-Ends v (inl h.0, h.1)
  with_rows-Ends (some event) none v e p h = acknowledge-Ends v (inl h.0, h.1)

  -- Whichever calls fail, a job sends at most one request: with the payload of the event that its message
  -- names, to the URL of the endpoint that it names, and only if that passes the SSRF check; its headers
  -- are the seven given, with the HMAC of the second and the payload under the endpoint's secret as the
  -- signature. If the job returns, its message is acknowledged, once and alone; if it throws, at most
  -- that.
  pub process_job-Ends : Ends (λ _. Done) Broken (process_job env message_id stream_name job w)
  unfolding process_job
  process_job-Ends =
      call_then_Ends (λ _. Done) Broken _ _ w (λ rest. (inl refl, inl refl))
        λ rest.
          call_then_Ends (λ _. Done) Broken _ _ (record w { faults = rest })
            (λ rest'. (inl refl, inl refl))
            λ rest'.
              with_rows-Ends (event_row job.event_id w) (endpoint_row job.endpoint_id w)
                (record w { faults = rest' }) refl refl (refl, refl)
