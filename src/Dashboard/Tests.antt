-- ===== src/Dashboard/Tests.antt =====
-- The page of frontend/src/App.tsx with a server that refuses a replay, and with one that answers.
use event_relay.Base.{
  ℕ, ◌+◌, ◌*◌, ◌≤◌, ◌<◌, ◌≡◌, ◌≢◌, ◌↔◌, refl, true, false, none, some, List, [], ◌∷◌, ◌++◌, Text,
  codes, arith,
}
use event_relay.Base.Decimal.{decimal}
use event_relay.Base.Trim.{trim}
use event_relay.Store.{World, ok}
use event_relay.Sample.{world, sample_bytes}
use event_relay.Ingest.{created}
use event_relay.Auth.{KeyConfig}
use event_relay.Store.{Result, ok, thrown}
use event_relay.Dashboard.Page.{
  success, dead_letter, DeliveryView, Json, scenario_replayed, Page, Browser, fetch,
}
use event_relay.Dashboard.Handlers.{new_page, success_rate, handle_replay}
use event_relay.Dashboard.Scenarios.{
  replay_dlq, happy, idempotent, run_idempotent, run_quick_scenario,
}
use event_relay.Dashboard.Actions.{
  Action, replay, run_scenario, poll, wait, send_event, edit_key, save_key, act, acts,
}
use event_relay.Dashboard.Settled.{page_settles}
use event_relay.Dashboard.Keyed.{dashboard_passes, PassedSince, RightKeys}
use event_relay.Dashboard.Rate.{success_rate_nearest}
use event_relay.Dashboard.Clicks.{served, guard_call, second_click}

abbrev failed : DeliveryView
failed = record {
  id = codes "d1-0123456789";
  event_id = codes "e1";
  event_type = codes "order.paid";
  endpoint_name = codes "shop";
  attempt_number = 5;
  http_status = some 503;
  duration_ms = some 20;
  error_message = none;
  status = dead_letter;
  created_at = codes "2026-01-01";
}

abbrev delivered : DeliveryView
delivered = record failed { id = codes "d2-0123456789"; status = success }

abbrev body : Json
body = record {
  endpoint_rows = none;
  delivery_rows = none;
  duplicate = false;
  error = some (codes "Delivery not found");
}

-- Every call is answered alike.
abbrev browser : ℕ → Browser
browser status = record {
  answer = λ n c. some (record { status = status; status_text = []; json = some body; took = 30 });
  normal_json = λ t. some t;
  order_number = λ now. 12345;
}

abbrev page : Page
page = record (new_page (some (codes "k-123")) 1000) { deliveries = delivered ∷ failed ∷ [] }

-- The last message says that the delivery was enqueued again, though the server refused that.
refused_replay :
    (run_quick_scenario (browser 404) page replay_dlq page).1.toast
    ≡ some (scenario_replayed (codes "d1-01234") 30)
unfolding run_quick_scenario event_relay.Dashboard.Scenarios.run_replay handle_replay fetch new_page
refused_replay = refl

half : success_rate page.deliveries ≡ 50
unfolding success_rate new_page
half = refl

half_succeeded :
    (2 * 2 * success_rate (delivered ∷ failed ∷ []) ≤ 200 * 1 + 2)
    × (200 * 1 + 2 < 2 * 2 * success_rate (delivered ∷ failed ∷ []) + 2 * 2)
    × (success_rate (delivered ∷ failed ∷ []) ≤ 100)
    × ((success_rate (delivered ∷ failed ∷ []) ≡ 100) ↔ (200 * 2 ≤ 200 * 1 + 2))
half_succeeded = success_rate_nearest (delivered ∷ failed ∷ []) (omega arith)

abbrev session : List Action
session =
    edit_key (codes " k-123 ") ∷ save_key ∷ replay (codes "d1-0123456789") ∷ run_scenario happy ∷ []

page_settles_example :
    ((acts (browser 404) (new_page none 1000) session).loading ≡ false)
    × ((new_page (acts (browser 404) (new_page none 1000) session).stored_key 4000).api_key
        ≡ (acts (browser 404) (new_page none 1000) session).api_key)
    × ((act (browser 404) (acts (browser 404) (new_page none 1000) session) (wait 4000)).toast
        ≡ none)
page_settles_example = page_settles (browser 404) none 1000 session 4000 (omega arith)

abbrev config : KeyConfig
config = record { api_key = some (codes "k-123"); production = true }

abbrev keyed : Page
keyed = record page { api_key = codes "k-123"; refreshes = [] }

right : RightKeys sample_bytes config (codes "k-123") keyed
unfolding trim
right = ((codes "k-123", refl, refl), tt)

dashboard_passes_example :
    PassedSince sample_bytes config
      (codes "k-123")
      keyed.sent
      (acts (browser 200) keyed (run_scenario happy ∷ send_event ∷ wait 900 ∷ poll ∷ []))
dashboard_passes_example =
    dashboard_passes sample_bytes config (codes "k-123") refl (browser 200) keyed
      (run_scenario happy ∷ send_event ∷ wait 900 ∷ poll ∷ []) right (tt, (tt, (tt, (tt, tt))))

abbrev number : Text → ℕ
number t = 0

abbrev first_answered : World
first_answered = (served number (guard_call page 1000) world).1

first_created : (served number (guard_call page 1000) world).0 ≡ ok (created 100 1)
unfolding event_relay.Ingest.ingest_event event_relay.Store.Effects.with_transaction
    event_relay.Metrics.inc_ingested event_relay.Ingest.insert_delivery
    event_relay.Outbox.insert_outbox new_page decimal
first_created = refl

clicked_twice :
    ((run_idempotent (browser 201) page (record page { now = 1000 })).1.sent
      ≡ page.sent ++ guard_call page 1000 ∷ guard_call page 1000 ∷ [])
    × ((served number (guard_call page 1000) first_answered).1.db ≡ first_answered.db)
    × ((i m : ℕ) → (served number (guard_call page 1000) first_answered).0 ≢ ok (created i m))
clicked_twice =
    second_click number (browser 201) page (record page { now = 1000 })
      (record { status = 201; status_text = []; json = some body; took = 30 }) world first_answered
      100 1 refl first_created refl
