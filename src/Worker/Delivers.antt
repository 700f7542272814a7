-- ===== src/Worker/Delivers.antt =====
-- `processJob` of backend/src/worker/deliveryWorker.ts where nothing stands in the way of a delivery.
use event_relay.Base.{
  ℕ, ◌+◌, ◌≡◌, refl, ap, ◌∙◌, inl, inr, true, Bool-cases, ltb, some, [], ◌∷◌, Text, codes, find,
  map_option, find-update_self, List, ◌==◌, arith, if◌then◌else◌,
}
use event_relay.Store.{
  World, Redis, Database, Endpoint, Event, Delivery, DeliveryJob, Post, ok, closed, CircuitRecord,
  modify,
}
use event_relay.Store.Atomic.{attempt_runs}
use event_relay.EventStatus.Sync.{sync_event_status_lem}
use event_relay.Metrics.{inc_delivery, observe_latency}
use event_relay.RateLimiter.{take_token}
use event_relay.Circuit.{record_success, after_success, is_of, update_circuits}
use event_relay.Ssrf.{valid, validate_endpoint_url}
use event_relay.StreamQueue.{stream_or, acknowledge, acknowledge_entry}
use event_relay.Worker.{
  Env, responded, update_delivery, to_success, request, send, on_response, settle, dispatch,
  acknowledge_job, after_ssrf, process_job,
}
use event_relay.HmacSigner.{sign}
use event_relay.Worker.Expected.{Follows, changed, arrived, signed_post, set_event_status-Follows}
use event_relay.Worker.Failure.{synced}
use event_relay.Worker.Reaches.{limiter, limited, get_circuit_runs, process_job-Reaches}
use event_relay.Worker.Jobs.{event_row, endpoint_row}

-- A success clears the failures that a closed breaker has counted.
abbrev pub cleared : ℕ → CircuitRecord → Database → Database
cleared endpoint_id r db =
    if ltb 0 r.failure_count
    then update_circuits (is_of endpoint_id) (λ c. record c { failure_count = 0 }) db
    else db

-- The row of the breaker afterwards.
abbrev pub forgiven : CircuitRecord → CircuitRecord
forgiven r = record r { failure_count = 0 }

cleared-row :
    (endpoint_id : ℕ) (r : CircuitRecord) (db : Database)
    → find (is_of endpoint_id) db.circuit_breakers ≡ some r
    → find (is_of endpoint_id) (cleared endpoint_id r db).circuit_breakers ≡ some (forgiven r)
cleared-row endpoint_id r db row = elim (Bool-cases (ltb 0 r.failure_count)) [
  | inl e ↦ rw e (
      find-update_self (is_of endpoint_id) forgiven db.circuit_breakers (λ x. refl)
      ∙ ap (map_option forgiven) row)
  | inr e ↦
      let none_counted : r.failure_count ≡ 0 = ground arith in
      rw e (row ∙ (λ i. some (record r { failure_count = none_counted i })))
]

cleared-Follows :
    (endpoint_id : ℕ) (r : CircuitRecord) (event_id : ℕ) (rows : List Delivery) (db db' : Database)
    → Follows event_id rows db db'
    → Follows event_id rows db (cleared endpoint_id r db')
cleared-Follows endpoint_id r event_id rows db db' h = elim (Bool-cases (ltb 0 r.failure_count)) [
  | inl e ↦ rw e h
  | inr e ↦ rw e h
]

module _ (endpoint_id : ℕ) (r : CircuitRecord) (w : World) (calm : w.faults ≡ [])
    (row : find (is_of endpoint_id) w.db.circuit_breakers ≡ some r) (shut : r.state ≡ closed) where
  record_success_runs :
      (v : World) × (record_success endpoint_id w ≡ (ok tt, v))
      × (v.faults ≡ [])
      × (v.db ≡ cleared endpoint_id r w.db)
      × (v.posts ≡ w.posts)
      × (v.redis ≡ w.redis)
  unfolding record_success after_success
  record_success_runs = elim (Bool-cases (ltb 0 r.failure_count)) [
    | inl e ↦ (
      record w {
        db = update_circuits (is_of endpoint_id) (λ c. record c { failure_count = 0 }) w.db;
      },
      rw (get_circuit_runs endpoint_id r w calm row shut 1) (
          rw (shut, e)
            (attempt_runs
              (modify (λ v. record v {
                db = update_circuits (is_of endpoint_id) (λ c. record c { failure_count = 0 }) v.db;
              }))
              w.faults w calm)),
      calm,
      rw e refl,
      refl,
      refl,
    )
    | inr e ↦ (
      w,
      rw (get_circuit_runs endpoint_id r w calm row shut 1) (rw (shut, e) refl),
      calm,
      rw e refl,
      refl,
      refl,
    )
  ]

-- The tables of a delivery that succeeded.
abbrev pub delivered : DeliveryJob → Endpoint → ℕ → Text → ℕ → CircuitRecord → Database → Database
delivered job endpoint status body duration r db =
    cleared endpoint.id r
      (synced job.event_id (update_delivery job.delivery_id (to_success status body duration) db))

module _ (env : Env) (message_id : ℕ) (stream_name : Text) (job : DeliveryJob) (event : Event)
    (endpoint : Endpoint) (status : ℕ) (body : Text) (duration : ℕ) where
  on_response_runs :
      (r : CircuitRecord) (w : World)
      → w.faults ≡ []
      → find (is_of endpoint.id) w.db.circuit_breakers ≡ some r
      → r.state ≡ closed
      → (v : World) × (on_response env message_id stream_name job endpoint status body duration w
          ≡ (ok tt, v))
        × (v.faults ≡ [])
        × (v.db ≡ delivered job endpoint status body duration r w.db)
        × (v.posts ≡ w.posts)
        × (v.redis ≡ w.redis)
  unfolding on_response inc_delivery observe_latency
  on_response_runs r w calm row shut =
      let f : Database → Database =
        update_delivery job.delivery_id (to_success status body duration) in
      let w1 : World = record w { db = f w.db } in
      let w2 : World = record w { db = synced job.event_id (f w.db) } in
      let (v, runs, calm', db', posts', redis') =
        record_success_runs endpoint.id r w2 calm row shut in
      (
        observe_latency duration (inc_delivery endpoint.name (codes "SUCCESS") v),
        rw (attempt_runs (modify (λ v. record v { db = f v.db })) w.faults w calm)
            (rw (sync_event_status_lem job.event_id w1 calm) (rw runs refl)),
        calm',
        db',
        posts',
        redis',
      )

  module _ (w : World) (r : CircuitRecord) (calm : w.faults ≡ [])
      (responds : env.http (request env message_id stream_name job event endpoint w.now)
        ≡ responded status body duration)
      (row : find (is_of endpoint.id) w.db.circuit_breakers ≡ some r)
      (shut : r.state ≡ closed) where
    abbrev pub post : Post
    post = request env message_id stream_name job event endpoint w.now

    -- What the job leaves: the tables, the request and the acknowledgement.
    abbrev pub Delivered : World → Type 0
    Delivered v =
        (v.db ≡ delivered job endpoint status body duration r w.db)
        × (v.posts ≡ post ∷ w.posts)
        × (v.redis.acknowledged
            ≡ (stream_or stream_name env.base_stream, message_id) ∷ w.redis.acknowledged)

    sent_and_settled :
        (v : World) × (after_ssrf env message_id stream_name job event endpoint valid w
          ≡ (ok tt, v))
        × (v.faults ≡ [])
        × Delivered v
    unfolding after_ssrf dispatch settle send acknowledge_job acknowledge
    sent_and_settled =
        let sent : World = record w { posts = post ∷ w.posts; now = w.now + duration } in
        let (v, runs, calm', db', posts', redis') = on_response_runs r sent calm row shut in
        let entry = acknowledge_entry (stream_or stream_name env.base_stream) message_id in
        (
          (entry v).1,
          rw responds (rw runs (rw (attempt_runs entry v.faults v calm') refl)),
          calm',
          (
            db',
            posts',
            ap (λ (x : Redis). (stream_or stream_name env.base_stream, message_id) ∷ x.acknowledged)
                redis',
          ),
        )

  -- What the job leaves, column by column.
  abbrev pub HasDelivered : CircuitRecord → World → World → Type 0
  HasDelivered r w v =
      Follows job.event_id (changed job.delivery_id (arrived status body duration) w.db) w.db v.db
      × (find (λ (c : CircuitRecord). c.endpoint_id == endpoint.id) v.db.circuit_breakers
          ≡ some (forgiven r))
      × (v.posts ≡ signed_post env job event endpoint w.now ∷ w.posts)
      × (v.redis.acknowledged
          ≡ (stream_or stream_name env.base_stream, message_id) ∷ w.redis.acknowledged)

  -- Where no call fails, a job whose event and endpoint are there, whose endpoint has a token and a
  -- closed breaker and a valid URL, and whose request is answered with a status below 300, returns. Its
  -- delivery is a SUCCESS, with the status, the first 2048 units of the body and the duration, no
  -- message and no time for a retry. Its event has the status that the comment of syncEventStatus gives
  -- for its deliveries, unless one is PENDING beside a success and a dead letter with none RETRYING. Its
  -- breaker has no failures counted; one request went out, with the payload, the seven headers and the
  -- HMAC as the signature; and the message is acknowledged.
  pub process_job-Delivers :
      (w : World) (r : CircuitRecord)
      → w.faults ≡ []
      → event_row job.event_id w ≡ some event
      → endpoint_row job.endpoint_id w ≡ some endpoint
      → (limiter env endpoint w).0 ≡ true
      → find (is_of endpoint.id) w.db.circuit_breakers ≡ some r
      → r.state ≡ closed
      → validate_endpoint_url env.net endpoint.url ≡ valid
      → env.http (signed_post env job event endpoint w.now) ≡ responded status body duration
      → (v : World) × (process_job env message_id stream_name job w ≡ (ok tt, v))
        × HasDelivered r w v
  unfolding take_token request sign
  process_job-Delivers w r calm event_there endpoint_there granted row shut is_valid responds =
      let (v, runs, calm', (db', posts', acknowledged')) =
        sent_and_settled (limited env endpoint w) r calm responds row shut in
      (
        v,
        process_job-Reaches env message_id stream_name job event endpoint w r calm event_there
              endpoint_there granted row shut is_valid
            ∙ runs,
        (
          rw db' (
              cleared-Follows endpoint.id r job.event_id _ w.db _ (
                set_event_status-Follows job.event_id job.delivery_id (arrived status body duration)
                  w.db)),
          rw db' (cleared-row endpoint.id r _ row),
          posts',
          acknowledged',
        ),
      )
