-- ===== src/Api/Tests.antt =====
-- The handlers of backend/src/api on a small database.
use event_relay.Base.{◌≡◌, refl, true, false, some, none, [], ◌∷◌, codes}
use event_relay.Store.{World}
use event_relay.Store.Atomic.{Ends}
use event_relay.Sample.{world, net}
use event_relay.Api.Endpoints.{EndpointBody, create_endpoint, parse_endpoint}
use event_relay.Api.Created.{Made, create_endpoint-Made}
use event_relay.Api.Listings.{list_endpoints}
use event_relay.Api.Hidden.{with_masked, list_endpoints-masked}

abbrev body : EndpointBody
body = record {
  name = codes "orders";
  url = codes "https://hooks.example/orders";
  secret_key = none;
  rate_limit_rps = some 100;
  max_retries = none;
  timeout_ms = none;
  subscribed_events = none;
}

too_fast : parse_endpoint (λ url. true) (record body { rate_limit_rps = some 501 }) ≡ none
unfolding parse_endpoint
too_fast = refl

-- The second statement fails.
abbrev failing : World
failing = record world { faults = false ∷ true ∷ [] }

create_endpoint-Made_example :
    Ends
      (Made net failing)
      (λ v. ⊥)
      (create_endpoint net (λ url. true) (codes "00ff00ff00ff") body failing)
create_endpoint-Made_example =
    create_endpoint-Made net failing (λ url. true) (codes "00ff00ff00ff") body

masked_list : (list_endpoints (with_masked world)).0 ≡ (list_endpoints world).0
masked_list = list_endpoints-masked world
