-- ===== src/Dashboard/Handlers.antt =====
-- The handlers of frontend/src/App.tsx outside the scenarios. `v` is the page as it was rendered, whose
-- values a handler closes over.
use event_relay.Base.{
  ℕ, suc, ◌+◌, ◌*◌, ◌-◌, ◌/◌, Bool, true, false, ltb, if◌then◌else◌, Option, none, some, List, [],
  ◌∷◌, ◌++◌, select, length, take, Text, codes, or_null,
}
use event_relay.Base.Trim.{trim}
use event_relay.Base.Decimal.{decimal}
use event_relay.Dashboard.Page.{
  EndpointView, success, dead_letter, DeliveryView, deliveries, EventBody, Call, Json, Reply, is_ok,
  Toast, key_configured, key_cleared, replay_error, reset_done, reset_error, invalid_payload,
  replay_failed, replay_queued, reset_failed, duplicate_intercepted, event_ingested, request_failed,
  Page, Browser, D, ◌>>=◌, ◌>>◌, update_page, get_now, or_throw, try_catch, try_finally, fetch,
}

-- `showToast`: the message, and the timer that clears whatever is shown then.
abbrev pub with_toast : Toast → Page → Page
with_toast t p = record p { toast = some t; clears = p.clears ++ (p.now + 4000) ∷ [] }

abbrev pub show_toast : Toast → D (Unit {0})
show_toast t = update_page (with_toast t)

-- `handleUpdateApiKey`.
unfoldable pub handle_update_api_key : Text → Page → Page
handle_update_api_key key p =
    with_toast (elim key [ [] ↦ key_cleared | c ∷ s ↦ key_configured ])
      (record p { api_key = key; stored_key = some key })

abbrev pub stored_value : Option Text → Text
stored_value none = []
stored_value (some key) = key

-- The first page: the key of an earlier visit, if there is one.
unfoldable pub new_page : Option Text → ℕ → Page
new_page stored now = record {
  active_tab = deliveries;
  endpoints = [];
  deliveries = [];
  loading = false;
  toast = none;
  api_key = stored_value stored;
  event_type = codes "order.created";
  ordering_key = [];
  payload_json =
      codes
        "{\n  \"orderId\": \"ORD-9821\",\n  \"amount\": 249.99,\n  \"customer\": \"alex@example.com\"\n}";
  custom_idempotency = codes "idemp-" ++ decimal now;
  is_editing_key = false;
  temp_key = stored_value stored;
  stored_key = stored;
  sent = [];
  clears = [];
  refreshes = [];
  now = now;
}

-- `getAuthHeaders`.
abbrev pub get_auth_headers : Text → List (Text × Text)
get_auth_headers [] = []
get_auth_headers (c ∷ key) = (codes "X-API-Key", c ∷ key) ∷ []

abbrev pub get_call : Text → Text → Call
get_call key path = record {
  is_post = false;
  path = path;
  headers = get_auth_headers key;
  body = none;
}

abbrev pub post_call : Page → Text → Call
post_call v path = record {
  is_post = true;
  path = path;
  headers = get_auth_headers v.api_key;
  body = none;
}

-- `POST /api/events`.
abbrev pub event_call : Page → Text → EventBody → Call
event_call v key body = record {
  is_post = true;
  path = codes "/api/events";
  headers =
      (codes "Content-Type", codes "application/json")
      ∷ (codes "Idempotency-Key", key)
      ∷ get_auth_headers v.api_key;
  body = some body;
}

-- What `Promise.all` of the two answers leaves: nothing, if one is rejected or does not parse.
abbrev pub set_endpoints : Option (List EndpointView) → Page → Page
set_endpoints none p = p
set_endpoints (some rows) p = record p { endpoints = rows }

abbrev pub set_deliveries : Option (List DeliveryView) → Page → Page
set_deliveries none p = p
set_deliveries (some rows) p = record p { deliveries = rows }

abbrev pub json_of : Option Reply → Option Json
json_of none = none
json_of (some res) = res.json

abbrev pub loaded : Option Json → Option Json → Page → Page
loaded (some ep) (some del) p = set_deliveries del.delivery_rows (set_endpoints ep.endpoint_rows p)
loaded _ _ p = p

-- `fetchData`: both requests are sent before the first answer is read.
unfoldable pub fetch_data : Browser → Text → Page → Page
fetch_data b key p =
    let first = get_call key (codes "/api/endpoints") in
    let second = get_call key (codes "/api/deliveries") in
    loaded (json_of (b.answer (length p.sent) first))
      (json_of (b.answer (suc (length p.sent)) second))
      (record p { sent = p.sent ++ first ∷ second ∷ [] })

-- `errData.error || res.statusText`, with `{}` for a body that does not parse.
abbrev pub or_text : Option Text → Text → Text
or_text (some (c ∷ s)) t = c ∷ s
or_text _ t = t

abbrev pub error_of : Option Json → Option Text
error_of none = none
error_of (some json) = json.error

module _ (b : Browser) (v : Page) where
  abbrev pub replay_answered : Text → ℕ → Reply → D (Unit {0})
  replay_answered id t0 res = do
    t1 ← get_now
    if is_ok res
        then (do
          show_toast (replay_queued (t1 - t0) (take 8 id))
          update_page (fetch_data b v.api_key))
        else show_toast (replay_failed res.status (or_text (error_of res.json) res.status_text))

  -- `handleReplay`.
  unfoldable pub handle_replay : Text → D (Unit {0})
  handle_replay id = do
    update_page (λ p. record p { loading = true })
    t0 ← get_now
    try_finally
        (try_catch
          (do
            res ← fetch b (post_call v (codes "/api/deliveries/" ++ (id ++ codes "/replay")))
            replay_answered id t0 res)
          (show_toast replay_error))
        (λ p. record p { loading = false })

  abbrev pub reset_answered : Reply → D (Unit {0})
  reset_answered res =
      if is_ok res
      then (do show_toast reset_done; update_page (fetch_data b v.api_key))
      else show_toast (reset_failed res.status (or_text (error_of res.json) res.status_text))

  -- `handleResetCircuit`.
  unfoldable pub handle_reset_circuit : Text → D (Unit {0})
  handle_reset_circuit id =
      try_catch
        (do
          res ← fetch b (post_call v (codes "/api/circuits/" ++ (id ++ codes "/reset")))
          reset_answered res)
        (show_toast reset_error)

  abbrev pub send_answered : ℕ → Reply → D (Unit {0})
  send_answered t0 res = do
    t1 ← get_now
    body ← or_throw res.json
    if is_ok res
        then (do
          show_toast
              (if body.duplicate then duplicate_intercepted (t1 - t0) else event_ingested (t1 - t0))
          update_page (λ p. record p { custom_idempotency = codes "idemp-" ++ decimal p.now })
          update_page (fetch_data b v.api_key))
        else show_toast
            (request_failed res.status (or_text body.error (codes "Failed to dispatch")))

  abbrev pub form_body : Text → EventBody
  form_body payload = record {
    event_type = v.event_type;
    payload = payload;
    ordering_key = or_null (some (trim v.ordering_key));
    endpoint_ids = none;
  }

  -- `handleSendEvent`: whatever is thrown is shown as invalid JSON.
  unfoldable pub handle_send_event : D (Unit {0})
  handle_send_event = do
    update_page (λ p. record p { loading = true })
    t0 ← get_now
    try_finally
        (try_catch
          (do
            payload ← or_throw (b.normal_json v.payload_json)
            res ← fetch b (event_call v v.custom_idempotency (form_body payload))
            send_answered t0 res)
          (show_toast invalid_payload))
        (λ p. record p { loading = false })

abbrev pub is_success : DeliveryView → Bool
is_success d = elim d.status [ success ↦ true | _ ↦ false ]

abbrev pub is_dead_letter : DeliveryView → Bool
is_dead_letter d = elim d.status [ dead_letter ↦ true | _ ↦ false ]

-- `dlqDeliveries`.
unfoldable pub dlq_deliveries : List DeliveryView → List DeliveryView
dlq_deliveries = select is_dead_letter

-- `successRate`: `Math.round` takes a half upwards.
unfoldable pub success_rate : List DeliveryView → ℕ
success_rate ds =
    if ltb 0 (length ds)
    then (200 * length (select is_success ds) + length ds) / (2 * length ds)
    else 100
