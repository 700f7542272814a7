-- ===== src/Sample.antt =====
-- Data for the tests: an endpoint, an event, its delivery, and an environment of concrete functions.
use event_relay.Base.{
  ◌+◌, ◌==◌, true, false, ◌||◌, none, some, [], ◌∷◌, all, any, length, ◌*◌, ℕ, List, Text, codes,
}
use event_relay.Base.Decimal.{decimal, is_digit}
use event_relay.Store.{
  World, Database, Catalog, Endpoint, Event, Delivery, OutboxRecord, DeliveryJob, CircuitRecord,
  opened, half_open_probing, retrying, processing,
}
use event_relay.Metrics.{new_metrics}
use event_relay.Circuit.{default_circuit}
use event_relay.Ssrf.{Net, resolved}
use event_relay.Worker.{Env, responded}

abbrev pub endpoint : Endpoint
endpoint = record {
  id = 7;
  name = codes "billing";
  url = codes "https://hooks.example/in";
  secret_key = codes "s3cret";
  rate_limit_rps = 10;
  max_retries = 5;
  timeout_ms = 5000;
  is_active = true;
  subscribed_events = [];
}

abbrev pub event : Event
event = record {
  id = 1;
  idempotency_key = codes "order-1";
  event_type = codes "order.created";
  payload = codes "{}";
  ordering_key = some (codes "customer-9");
  status = processing;
}

abbrev pub delivery : Delivery
delivery = record {
  id = 2;
  event_id = 1;
  endpoint_id = 7;
  attempt_number = 1;
  http_status = none;
  response_body = none;
  duration_ms = none;
  error_message = none;
  status = retrying;
  next_retry_at = some 500000;
}

abbrev pub outbox_row : OutboxRecord
outbox_row = record {
  id = 3;
  delivery_id = 2;
  event_id = 1;
  endpoint_id = 7;
  attempt_number = 1;
  ordering_key = some (codes "customer-9");
  created_at = 400000;
}

abbrev pub job : DeliveryJob
job = record { delivery_id = 2; event_id = 1; endpoint_id = 7; attempt_number = 1 }

-- Open for longer than its 30 seconds.
abbrev pub open_circuit : CircuitRecord
open_circuit = record (default_circuit 7) {
  state = opened;
  failure_count = 5;
  opened_at = some 900000;
}

abbrev pub trial_circuit : CircuitRecord
trial_circuit = record open_circuit { state = half_open_probing }

abbrev pub no_tables : Catalog
no_tables = record { extensions = []; tables = []; indexes = []; comments = [] }

abbrev pub database : Database
database = record {
  endpoints = endpoint ∷ [];
  events = event ∷ [];
  deliveries = delivery ∷ [];
  outbox = outbox_row ∷ [];
  circuit_breakers = default_circuit 7 ∷ [];
  catalog = no_tables;
  schema_migrations = none;
}

abbrev pub world : World
world = record {
  db = database;
  redis = record {
    entries = [];
    groups = [];
    claims = [];
    acknowledged = [];
    buckets = [];
    locks = λ shard. none;
  };
  metrics = new_metrics;
  local_buckets = λ caller. none;
  posts = [];
  now = 1000000;
  faults = [];
  uuid = λ n. n + 100;
  message_id = λ n. n + 1000;
  drawn = 0;
}

abbrev pub with_circuit : CircuitRecord → World
with_circuit r = record world { db = record database { circuit_breakers = r ∷ [] } }

-- The resolver knows one host, at a public address.
abbrev pub net : Net
net = record {
  is_ipv4 = λ s. all (λ c. is_digit c || c == b'.') s;
  is_ipv6 = λ s. any (λ c. c == b':') s;
  parse_url = λ s. some (record { protocol = codes "https:"; hostname = codes "hooks.example" });
  lookup = λ s. resolved (codes "93.184.216.34" ∷ []);
  allow_http_endpoints = false;
  allow_private_endpoints = false;
  production = true;
}

abbrev pub sample_hmac : Text → Text → Text
sample_hmac key text = decimal (length key * 1000 + length text)

abbrev pub env : Env
env = record {
  base_stream = codes "deliveries";
  max_retries_default = 5;
  fail_closed = false;
  random = 4503599627370496;
  uuid_text = decimal;
  db_error = codes "connection lost";
  hmac = sample_hmac;
  net = net;
  http = λ post. responded 200 (codes "ok") 12;
}

abbrev pub sample_bytes : Text → List ℕ
sample_bytes s = s
