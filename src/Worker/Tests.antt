-- ===== src/Worker/Tests.antt =====
-- Jobs, on concrete rows.
use event_relay.Base.{◌≡◌, refl, some, true, false, [], ◌∷◌, codes, arith, List}
use event_relay.Store.{thrown, World, ok, StreamMessage}
use event_relay.Store.Atomic.{Returns, Ends}
use event_relay.Store.Frame.{Leaves}
use event_relay.Sample.{world, env, net, event, endpoint, job, trial_circuit, with_circuit}
use event_relay.Ssrf.{valid, refused, validate_endpoint_url}
use event_relay.StreamQueue.{stream_or}
use event_relay.Worker.Expected.{signed_post}
use event_relay.Worker.{unreachable, after_ssrf, Env, handle_failure, process_job}
use event_relay.Worker.Failure.{Handled, handle_failure-Handled}
use event_relay.Worker.Jobs.{Done, Broken, process_job-Ends}
use event_relay.Worker.Loop.{process_all}
use event_relay.Worker.Rounds.{AllAcknowledged, SomeAcknowledged, process_all-Acknowledged}
use event_relay.RateLimiter.{take_token}
use event_relay.Circuit.{default_circuit}
use event_relay.Worker.Reaches.{limiter}
use event_relay.Worker.Delivers.{HasDelivered, process_job-Delivers}
use event_relay.Worker.Fails.{FailedFrom, process_job-Fails}
use event_relay.Worker.Lost.{unrecorded_failure}
use event_relay.Worker.Stuck.{Idle, process_job-Idle}

-- The fifth call fails.
abbrev faulty : World
faulty = record world { faults = false ∷ false ∷ false ∷ false ∷ true ∷ [] }

handle_failure-Handled_example :
    Returns
      (λ _. Handled env 2 1 endpoint 1 (some 500) (codes "HTTP 500") 12 world)
      (handle_failure env 2 1 endpoint 1 (some 500) (codes "HTTP 500") 12 world)
    × (world.faults ≡ []
        → (handle_failure env 2 1 endpoint 1 (some 500) (codes "HTTP 500") 12 world).0 ≡ ok tt)
handle_failure-Handled_example =
    handle_failure-Handled env 2 1 endpoint 1 (some 500) (codes "HTTP 500") 12 world (omega arith)

process_job-Ends_example :
    Ends
      (λ _. Done env 1000 (codes "deliveries") job faulty)
      (Broken env 1000 (codes "deliveries") job faulty)
      (process_job env 1000 (codes "deliveries") job faulty)
process_job-Ends_example = process_job-Ends env 1000 (codes "deliveries") job faulty

-- The host has come to be localhost.
abbrev local_env : Env
local_env = record env {
  net = record net {
    parse_url = λ s. some (record { protocol = codes "https:"; hostname = codes "localhost" });
  };
}

is_refused :
    validate_endpoint_url local_env.net endpoint.url
    ≡ refused (codes "SSRF Protection: Access to localhost is blocked.")
unfolding validate_endpoint_url
is_refused = refl

process_job-Idle_example :
    Leaves
      (Idle env 1000 (codes "deliveries") job (with_circuit trial_circuit))
      (process_job env 1000 (codes "deliveries") job (with_circuit trial_circuit))
process_job-Idle_example =
    process_job-Idle env 1000 (codes "deliveries") job (with_circuit trial_circuit) trial_circuit
      refl refl

abbrev offline_env : Env
offline_env = record env { http = λ post. unreachable (codes "timeout") 5000 }

-- The one call that fails is the one that records the failure.
abbrev unrecorded : World
unrecorded = record world { faults = true ∷ [] }

lost_failure :
    ((after_ssrf offline_env 1000 (codes "deliveries") job event endpoint valid unrecorded).0
      ≡ thrown)
    × ((after_ssrf offline_env 1000 (codes "deliveries") job event endpoint valid unrecorded).1.db
        ≡ unrecorded.db)
    × ((after_ssrf offline_env 1000
          (codes "deliveries")
          job
          event
          endpoint
          valid
          unrecorded).1.redis.acknowledged
        ≡ (codes "deliveries", 1000) ∷ [])
lost_failure =
    unrecorded_failure offline_env 1000 (codes "deliveries") job event endpoint (codes "timeout")
      5000 unrecorded refl refl

-- The second of two jobs is of a database that fails.
abbrev two_messages : List StreamMessage
two_messages =
    record { message_id = 1000; stream_name = codes "deliveries"; job = job }
    ∷ record { message_id = 1001; stream_name = codes "deliveries"; job = job }
    ∷ []

two_acknowledged :
    Ends
      (λ _. AllAcknowledged env two_messages faulty.redis.acknowledged)
      (SomeAcknowledged env two_messages faulty.redis.acknowledged)
      (process_all env two_messages faulty)
two_acknowledged = process_all-Acknowledged env two_messages faulty

host_is_valid : validate_endpoint_url env.net endpoint.url ≡ valid
unfolding validate_endpoint_url event_relay.Ssrf.is_private_or_reserved_ip
    event_relay.Ssrf.is_private_fuel event_relay.Ssrf.blocked_ipv4 event_relay.Ssrf.split_dots
    event_relay.Ssrf.to_number event_relay.Ssrf.blocked_octets event_relay.Base.Decimal.digits_value
host_is_valid = refl

has_token : (limiter env endpoint world).0 ≡ true
unfolding take_token
has_token = refl

process_job-Delivers_example :
    (v : World) × (process_job env 1000 (codes "deliveries") job world ≡ (ok tt, v))
    × HasDelivered env 1000
        (codes "deliveries")
        job
        event
        endpoint
        200
        (codes "ok")
        12
        (default_circuit 7)
        world
        v
process_job-Delivers_example =
    process_job-Delivers env 1000 (codes "deliveries") job event endpoint 200 (codes "ok") 12 world
      (default_circuit 7) refl refl refl has_token refl refl host_is_valid refl

process_job-Fails_example :
    (v : World) × (process_job offline_env 1000 (codes "deliveries") job world ≡ (ok tt, v))
    × (v.faults ≡ [])
    × FailedFrom offline_env 1000
        (codes "deliveries")
        job
        event
        endpoint
        (unreachable (codes "timeout") 5000)
        (default_circuit 7)
        world.db
        1005000
        v
    × (v.posts ≡ signed_post offline_env job event endpoint 1000000 ∷ [])
    × (v.redis.acknowledged ≡ (stream_or (codes "deliveries") (codes "deliveries"), 1000) ∷ [])
process_job-Fails_example =
    process_job-Fails offline_env 1000 (codes "deliveries") job event endpoint
      (unreachable (codes "timeout") 5000) world (default_circuit 7) (omega arith) refl refl refl
      has_token refl refl host_is_valid refl tt
