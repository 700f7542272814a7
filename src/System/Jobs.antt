-- ===== src/System/Jobs.antt =====
-- processJob of backend/src/worker/deliveryWorker.ts, for statements that do not speak of what it changes.
use event_relay.Base.{ℕ, Bool, true, false, Option, none, some, List, Text}
use event_relay.Store.{World, Event, Endpoint, DeliveryJob, Post, continue}
use event_relay.Store.Frame.{
  Keeps, Leaves, Blind, BlindToBreakers, call-Keeps, query-Keeps, continue-Keeps, finally-Keeps,
}
use event_relay.Circuit.Frame.{can_execute-Keeps}
use event_relay.StreamQueue.{acknowledge}
use event_relay.Ssrf.{Verdict, valid, refused}
use event_relay.Worker.{
  Env, send, fail, acknowledge_job, dispatch, after_ssrf, after_circuit, after_limit, with_rows,
  process_job,
}
use event_relay.Worker.Frame.{fail-Keeps, settle-Keeps, ask_limiter-Keeps, ask_again-Keeps}

-- Nor at the requests sent, the acknowledgements and the breakers.
pub record BlindToJobs (P : World → Type 0) : Type 0 where
  pub to_posts : (v : World) (ps : List Post) → P v → P (record v { posts = ps })
  pub to_acknowledged :
      (v : World) (ms : List (Text × ℕ))
      → P v
      → P (record v { redis = record (v.redis) { acknowledged = ms } })
  pub breakers : BlindToBreakers P

module _ {P : World → Type 0} (blind : Blind P) (j : BlindToJobs P) (env : Env) (message_id : ℕ)
    (stream : Text) (job : DeliveryJob) where
  acknowledge-Keeps : Keeps P (acknowledge_job env message_id stream job)
  unfolding acknowledge_job acknowledge
  acknowledge-Keeps = call-Keeps blind _ (λ v g. j.to_acknowledged v _ g)

  failed :
      (endpoint : Endpoint) (status : Option ℕ) (message : Text) (w : World)
      → P w
      → Leaves P (
          continue
            (fail env message_id stream job endpoint status message 0 w)
            (λ _. acknowledge_job env message_id stream job))
  failed endpoint status message w h =
      continue-Keeps P _ _
        (fail-Keeps blind env message_id stream job endpoint status message 0 w h)
        λ _. acknowledge-Keeps

  dispatch-Keeps :
      (event : Event) (endpoint : Endpoint)
      → Keeps P (dispatch env message_id stream job event endpoint)
  unfolding dispatch send
  dispatch-Keeps event endpoint w h =
      settle-Keeps blind env message_id stream job j.breakers endpoint _ _
        (blind.to_clock _ _ (j.to_posts w _ h))

  after_ssrf-Keeps :
      (event : Event) (endpoint : Endpoint) (v : Verdict)
      → Keeps P (after_ssrf env message_id stream job event endpoint v)
  unfolding after_ssrf
  after_ssrf-Keeps event endpoint (refused message) w h = failed endpoint _ _ w h
  after_ssrf-Keeps event endpoint valid w h =
      finally-Keeps P _ _ (dispatch-Keeps event endpoint w h) acknowledge-Keeps

  after_circuit-Keeps :
      (event : Event) (endpoint : Endpoint) (allowed : Bool)
      → Keeps P (after_circuit env message_id stream job event endpoint allowed)
  unfolding after_circuit
  after_circuit-Keeps event endpoint false w h = failed endpoint _ _ w h
  after_circuit-Keeps event endpoint true w h = after_ssrf-Keeps event endpoint _ w h

  after_limit-Keeps :
      (event : Event) (endpoint : Endpoint) (allowed : Bool)
      → Keeps P (after_limit env message_id stream job event endpoint allowed)
  unfolding after_limit
  after_limit-Keeps event endpoint false w h = failed endpoint _ _ w h
  after_limit-Keeps event endpoint true w h =
      continue-Keeps P _ _ (can_execute-Keeps blind j.breakers endpoint.id w h)
        (after_circuit-Keeps event endpoint)

  with_rows-Keeps :
      (event : Option Event) (endpoint : Option Endpoint)
      → Keeps P (with_rows env message_id stream job event endpoint)
  unfolding with_rows
  with_rows-Keeps (some event) (some endpoint) w h =
      continue-Keeps P _ _ (ask_limiter-Keeps blind env message_id stream job endpoint w h)
        λ first v g.
          continue-Keeps P _ _ (ask_again-Keeps blind env message_id stream job endpoint first v g)
            (after_limit-Keeps event endpoint)
  with_rows-Keeps none endpoint w h = acknowledge-Keeps w h
  with_rows-Keeps (some event) none w h = acknowledge-Keeps w h

  pub process_job-Keeps : Keeps P (process_job env message_id stream job)
  unfolding process_job
  process_job-Keeps w h =
      continue-Keeps P _ _ (query-Keeps blind _ w h)
        λ event v g. continue-Keeps P _ _ (query-Keeps blind _ v g) (with_rows-Keeps event)
