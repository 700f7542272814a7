-- ===== src/Gateway/Closed.antt =====
-- The routes of backend/src/index.ts for a request without the key.
use event_relay.Base.{◌≡◌, refl}
use event_relay.Store.{World, ok}
use event_relay.Http.{Request, Reply, Gate, next, answered}
use event_relay.Auth.{require_api_key}
use event_relay.Auth.Authorized.{Authorized, Denied, Judged, require_api_key-Judged}
use event_relay.Gateway.{
  Gateway, Route, get_health, get_metrics, get_events, get_endpoints, get_deliveries, get_circuits,
  post_events, post_endpoints, post_replay, post_reset, denied, through, handler, handle,
}

-- Every route but the health check.
abbrev pub IsGuarded : Route → Type 0
IsGuarded get_health = ⊥
IsGuarded _ = Unit {0}

module _ (g : Gateway) (req : Request) (w : World) where
  guarded :
      (route : Route)
      → IsGuarded route
      → handle g req route
        ≡ through (require_api_key g.bytes g.keys req) (λ headers. handler g req route)
  unfolding handle
  guarded get_health h = absurd h
  guarded get_metrics h = refl
  guarded get_events h = refl
  guarded get_endpoints h = refl
  guarded get_deliveries h = refl
  guarded get_circuits h = refl
  guarded (post_events body) h = refl
  guarded (post_endpoints body) h = refl
  guarded (post_replay id) h = refl
  guarded (post_reset id) h = refl

  refused :
      (route : Route) (gate : Gate)
      → Judged g.bytes g.keys req gate
      → ¬ Authorized g.bytes g.keys req
      → (reply : Reply) × (Denied g.bytes g.keys req reply.status)
        × (through gate (λ headers. handler g req route) w ≡ (ok (denied reply), w))
  refused route (next headers) j closed = absurd (closed j.1)
  refused route (answered reply) j closed = (reply, j, refl)

  -- A request that is not authorized gets, from every route but the health check, the answer
  -- that its fault deserves, and leaves the world as it was: no call is made.
  pub handle-Denied :
      (route : Route)
      → IsGuarded route
      → ¬ Authorized g.bytes g.keys req
      → (reply : Reply) × (Denied g.bytes g.keys req reply.status)
        × (handle g req route w ≡ (ok (denied reply), w))
  handle-Denied route h closed =
      rw (guarded route h) (refused route _ (require_api_key-Judged g.bytes g.keys req) closed)
