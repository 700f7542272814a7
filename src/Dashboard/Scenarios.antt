-- ===== src/Dashboard/Scenarios.antt =====
-- `runQuickScenario` of frontend/src/App.tsx.
use event_relay.Base.{
  ℕ, zero, suc, ◌+◌, ◌-◌, Bool, true, false, ◌||◌, if◌then◌else◌, Option, none, some, List, [], ◌∷◌,
  ◌++◌, find, Text, codes, starts_with, take,
}
use event_relay.Base.Decimal.{decimal}
use event_relay.Ssrf.{to_lower}
use event_relay.Dashboard.Page.{
  EndpointView, retrying, DeliveryView, Tab, deliveries, endpoints, EventBody, Json, Reply,
  nothing_to_replay, scenario_error, payment_ingested, scenario_duplicate, scenario_ingested,
  circuit_tripped, scenario_replayed, Page, Browser, D, ◌>>=◌, ◌>>◌, pure, update_page, get_now,
  or_throw, try_catch, try_finally, fetch,
}
use event_relay.Dashboard.Handlers.{show_toast, event_call, handle_replay, is_dead_letter}

-- `ScenarioType`.
pub data Scenario : Type 0 where
  happy idempotent circuit replay_dlq : Scenario

-- `text.includes(part)`.
abbrev pub includes : Text → Text → Bool
includes [] part = starts_with part []
includes (c ∷ s) part = starts_with part (c ∷ s) || includes s part

-- `setTimeout(fetchData, delay)`.
abbrev pub fetch_later : Text → ℕ → D (Unit {0})
fetch_later key delay =
    update_page λ p. record p { refreshes = p.refreshes ++ (p.now + delay, key) ∷ [] }

abbrev pub open_tab : Tab → D (Unit {0})
open_tab tab = update_page λ p. record p { active_tab = tab }

abbrev pub happy_body : ℕ → EventBody
happy_body order_num = record {
  event_type = codes "order.payment_completed";
  payload =
      codes "{\"orderId\":\"ORD-"
      ++ (decimal order_num
          ++ codes
              "\",\"amount\":149.99,\"currency\":\"USD\",\"customer\":\"customer_101@example.com\"}");
  ordering_key = some (codes "customer_101@example.com");
  endpoint_ids = none;
}

abbrev pub duplicate_body : EventBody
duplicate_body = record {
  event_type = codes "order.payment_completed";
  payload =
      codes "{\"orderId\":\"ORD-DUP-TEST\",\"amount\":999,\"customer\":\"shopper_42@example.com\"}";
  ordering_key = some (codes "shopper_42@example.com");
  endpoint_ids = none;
}

abbrev pub outage_body : Option (List Text) → ℕ → EventBody
outage_body ids i = record {
  event_type = codes "outage.simulation";
  payload = codes "{\"batch\":" ++ (decimal i ++ codes ",\"reason\":\"downstream 503 outage\"}");
  ordering_key = none;
  endpoint_ids = ids;
}

abbrev pub is_outage : EndpointView → Bool
is_outage e = includes e.url (codes "failing") || includes (to_lower e.name) (codes "outage")

abbrev pub ids_of_found : Option EndpointView → Option (List Text)
ids_of_found none = none
ids_of_found (some ep) = some (ep.id ∷ [])

abbrev pub is_retrying : DeliveryView → Bool
is_retrying d = elim d.status [ retrying ↦ true | _ ↦ false ]

module _ (b : Browser) (v : Page) where
  unfoldable pub run_happy : D (Unit {0})
  run_happy = do
    t0 ← get_now
    res ←
        fetch b
          (event_call v (codes "scenario-happy-" ++ decimal t0) (happy_body (b.order_number t0)))
    t1 ← get_now
    show_toast (payment_ingested (t1 - t0) res.status)
    open_tab deliveries
    fetch_later v.api_key 800

  abbrev pub show_second : ℕ → ℕ → Json → D (Unit {0})
  show_second t1 t2 body = do
    show_toast
        (if body.duplicate then scenario_duplicate (t2 - t1) else scenario_ingested (t2 - t1))
    open_tab deliveries
    fetch_later v.api_key 800

  abbrev pub second_answered : ℕ → Reply → D (Unit {0})
  second_answered t1 second = do t2 ← get_now; body ← or_throw second.json; show_second t1 t2 body

  unfoldable pub run_idempotent : D (Unit {0})
  run_idempotent = do
    t0 ← get_now
    first ← fetch b (event_call v (codes "idemp-guard-" ++ decimal t0) duplicate_body)
    t1 ← get_now
    second ← fetch b (event_call v (codes "idemp-guard-" ++ decimal t0) duplicate_body)
    second_answered t1 second

  -- The loop, from its turn `i`, for `n` turns more.
  unfoldable pub send_outages : Option (List Text) → ℕ → ℕ → D (Unit {0})
  send_outages ids i zero = pure tt
  send_outages ids i (suc n) = do
    t ← get_now
    res ← fetch b (
        event_call v (codes "scenario-outage-" ++ (decimal t ++ (codes "-" ++ decimal i)))
          (outage_body ids i))
    send_outages ids (suc i) n

  unfoldable pub run_circuit : D (Unit {0})
  run_circuit = do
    t0 ← get_now
    send_outages (ids_of_found (find is_outage v.endpoints)) 0 5
    t1 ← get_now
    show_toast (circuit_tripped (t1 - t0))
    open_tab endpoints
    fetch_later v.api_key 1500

  abbrev pub replay_first : Option DeliveryView → D (Unit {0})
  replay_first none = show_toast nothing_to_replay
  replay_first (some d) = do
    t0 ← get_now
    handle_replay b v d.id
    t1 ← get_now
    show_toast (scenario_replayed (take 8 d.id) (t1 - t0))

  unfoldable pub run_replay : D (Unit {0})
  run_replay = do
    replay_first (find (λ d. is_dead_letter d || is_retrying d) v.deliveries)
    open_tab deliveries
    fetch_later v.api_key 800

  abbrev pub scenario_steps : Scenario → D (Unit {0})
  scenario_steps happy = run_happy
  scenario_steps idempotent = run_idempotent
  scenario_steps circuit = run_circuit
  scenario_steps replay_dlq = run_replay

  -- `runQuickScenario`.
  unfoldable pub run_quick_scenario : Scenario → D (Unit {0})
  run_quick_scenario scenario = do
    update_page (λ p. record p { loading = true })
    try_finally (try_catch (scenario_steps scenario) (show_toast scenario_error))
        (λ p. record p { loading = false })
