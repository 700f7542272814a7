-- ===== src/Api/Endpoints.antt =====
-- backend/src/api/endpointsController.ts: `createEndpoint`; and `resetCircuit` of
-- backend/src/api/circuitController.ts.
use event_relay.Base.{
  ℕ, ◌+◌, Bool, true, ◌&&◌, leb, if◌then◌else◌, Option, none, some, List, [], ◌∷◌, ◌++◌, length,
  Text, codes, starts_with,
}
use event_relay.Store.{
  World, Endpoint, Result, ok, M, ◌>>=◌, ◌>>◌, pure, call, execute_returning, try_catch,
}
use event_relay.Circuit.{insert_circuit, reset_circuit}
use event_relay.Ssrf.{Net, Verdict, valid, refused, validate_endpoint_url}

-- The body of a request, where its fields have the right types; an absent field is `none`.
pub record EndpointBody : Type 0 where
  pub name : Text
  pub url : Text
  pub secret_key : Option Text
  pub rate_limit_rps : Option ℕ
  pub max_retries : Option ℕ
  pub timeout_ms : Option ℕ
  pub subscribed_events : Option (List Text)

-- `parseResult.data`.
pub record NewEndpoint : Type 0 where
  pub name : Text
  pub url : Text
  pub secret_key : Option Text
  pub rate_limit_rps : ℕ
  pub max_retries : ℕ
  pub timeout_ms : ℕ
  pub subscribed_events : List Text

abbrev pub or_default {ℓ} : {A : Type ℓ} → A → Option A → A
or_default a none = a
or_default a (some b) = b

abbrev pub between : ℕ → ℕ → ℕ → Bool
between low high n = leb low n && leb n high

abbrev pub optional : (Text → Bool) → Option Text → Bool
optional p none = true
optional p (some s) = p s

-- `startsWith('whsec_').min(16)`.
abbrev pub is_secret : Text → Bool
is_secret s = starts_with (codes "whsec_") s && leb 16 (length s)

-- `CreateEndpointSchema.safeParse`; `is_url` is zod's test of a URL.
unfoldable pub parse_endpoint : (Text → Bool) → EndpointBody → Option NewEndpoint
parse_endpoint is_url body =
    let rps = or_default 50 body.rate_limit_rps in
    let retries = or_default 5 body.max_retries in
    let timeout = or_default 5000 body.timeout_ms in
    if leb 2 (length body.name)
      && (is_url body.url
          && (optional is_secret body.secret_key
              && (between 1 500 rps && (between 1 10 retries && between 500 30000 timeout))))
    then some (record {
      name = body.name;
      url = body.url;
      secret_key = body.secret_key;
      rate_limit_rps = rps;
      max_retries = retries;
      timeout_ms = timeout;
      subscribed_events = or_default [] body.subscribed_events;
    })
    else none

pub data Response : Type 0 where
  bad_request : Response
  blocked : Text → Response
  created : Endpoint → Response
  server_error : Response

-- `providedKey || …`: `hex` is what `crypto.randomBytes(24).toString('hex')` returns.
unfoldable pub secret_of : Text → Option Text → Text
secret_of hex none = codes "whsec_" ++ hex
secret_of hex (some []) = codes "whsec_" ++ hex
secret_of hex (some (c ∷ key)) = c ∷ key

-- The row of a new endpoint.
abbrev pub row_for : Text → NewEndpoint → ℕ → Endpoint
row_for hex new id = record {
  id = id;
  name = new.name;
  url = new.url;
  secret_key = secret_of hex new.secret_key;
  rate_limit_rps = new.rate_limit_rps;
  max_retries = new.max_retries;
  timeout_ms = new.timeout_ms;
  is_active = true;
  subscribed_events = new.subscribed_events;
}

-- `INSERT INTO endpoints (…) VALUES (…) RETURNING *`.
unfoldable pub insert_endpoint : Text → NewEndpoint → World → Result Endpoint × World
insert_endpoint hex new w =
    let row : Endpoint = row_for hex new (w.uuid w.drawn) in
    (
      ok row,
      record w {
        db = record (w.db) { endpoints = w.db.endpoints ++ row ∷ [] };
        drawn = w.drawn + 1;
      },
    )

-- The two statements, each on its own: there is no transaction around them.
abbrev pub insert_both : Text → NewEndpoint → M Response
insert_both hex new = do
  row ← call (insert_endpoint hex new)
  execute_returning (insert_circuit row.id)
  pure (created row)

abbrev pub after_check : Text → NewEndpoint → Verdict → M Response
after_check hex new (refused error) = pure (blocked error)
after_check hex new valid = try_catch (insert_both hex new) (pure server_error)

abbrev pub with_body : Net → Text → Option NewEndpoint → M Response
with_body net hex none = pure bad_request
with_body net hex (some new) = after_check hex new (validate_endpoint_url net new.url)

unfoldable pub create_endpoint : Net → (Text → Bool) → Text → EndpointBody → M Response
unfolding parse_endpoint insert_endpoint
create_endpoint net is_url hex body = with_body net hex (parse_endpoint is_url body)

pub data ResetResponse : Type 0 where
  was_reset : ℕ → ResetResponse
  reset_failed : ResetResponse

-- `resetCircuit` of the controller.
unfoldable pub reset_handler : ℕ → M ResetResponse
reset_handler endpoint_id =
    try_catch (do reset_circuit endpoint_id; pure (was_reset endpoint_id)) (pure reset_failed)
