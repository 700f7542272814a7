-- ===== src/Gateway/Tests.antt =====
-- backend/src/index.ts: a replay asked for without a key, and one that the database fails.
use event_relay.Base.{
  refl, false, ◌≡◌, true, if◌then◌else◌, some, none, inl, inr, [], ◌∷◌, codes, text_eq,
}
use event_relay.Base.Decimal.{decimal}
use event_relay.Store.{ok}
use event_relay.Sample.{database, no_tables, world, net, sample_bytes}
use event_relay.Http.{Request, Reply}
use event_relay.Auth.{provided_key}
use event_relay.Base.Trim.{trim}
use event_relay.Auth.Authorized.{Authorized, Denied}
use event_relay.Gateway.{Gateway, handle, post_replay, denied}
use event_relay.Store.{World}
use event_relay.Store.Atomic.{Ends}
use event_relay.Migrator.Migrations.{migrations}
use event_relay.Gateway.Boot.{Ready, bootstrap, bootstrap-Ready}
use event_relay.Gateway.Closed.{handle-Denied}
use event_relay.Gateway.Total.{Answers, handle-Answers}

abbrev gateway : Gateway
gateway = record {
  keys = record { api_key = some (codes "k-123"); production = true };
  rps = 200;
  bytes = sample_bytes;
  net = net;
  is_url = λ url. true;
  random_hex = codes "00ff00ff";
  uuid_text = decimal;
  circuit_updated_at = λ id. 0;
}

abbrev sample_request : Request
sample_request = record { header = λ h. none; query = λ q. none; ip = none }

no_key : ¬ Authorized sample_bytes gateway.keys sample_request
unfolding provided_key trim
no_key (inl (a, b)) = cc
no_key (inr (key, given, e, f, h)) = cc

handle-Denied_example :
    (reply : Reply) × (Denied sample_bytes gateway.keys sample_request reply.status)
    × (handle gateway sample_request (post_replay 2) world ≡ (ok (denied reply), world))
handle-Denied_example = handle-Denied gateway sample_request world (post_replay 2) tt no_key

-- A sample_request with the key, and a database that does not answer.
abbrev keyed_request : Request
keyed_request = record sample_request {
  header = λ h. if text_eq h (codes "X-API-Key") then some (codes "k-123") else none;
}

handle-Answers_example :
    Answers
      (handle gateway keyed_request (post_replay 2))
      (record world { faults = true ∷ true ∷ [] })
handle-Answers_example =
    handle-Answers gateway keyed_request (post_replay 2)
      (record world { faults = true ∷ true ∷ [] })

-- A new database, on which the sixth call fails.
abbrev failing : World
failing = record world { faults = false ∷ false ∷ false ∷ false ∷ false ∷ true ∷ [] }

bootstrap-Ready_example :
    Ends
      (Ready database [] migrations)
      (λ v. ⊥)
      (bootstrap (λ name. none) (codes "deliveries") failing)
bootstrap-Ready_example =
    bootstrap-Ready database [] migrations (λ name. none) (codes "deliveries") failing refl
      (no_tables, refl, refl)
