-- ===== src/Dashboard/Actions.antt =====
-- What can happen to the page of frontend/src/App.tsx, the editor of frontend/src/components/Header.tsx
-- included: the user's actions, and time.
use event_relay.Base.{
  ℕ, ◌+◌, Bool, true, false, not, leb, if◌then◌else◌, none, List, [], ◌∷◌, any, select, Text,
  text_eq,
}
use event_relay.Base.Trim.{trim}
use event_relay.Dashboard.Page.{Tab, Page, Browser, D}
use event_relay.Dashboard.Handlers.{
  handle_update_api_key, fetch_data, handle_replay, handle_reset_circuit, handle_send_event,
}
use event_relay.Dashboard.Scenarios.{Scenario, run_quick_scenario}

pub data Action : Type 0 where
  select_tab : Tab → Action
  dismiss_toast : Action
  edit_event_type edit_ordering_key edit_payload edit_idempotency : Text → Action
  configure_key save_key cancel_key : Action
  edit_key : Text → Action
  replay : Text → Action
  reset : Text → Action
  send_event : Action
  run_scenario : Scenario → Action
  -- The interval of four seconds, and the timers that are due after some time.
  poll : Action
  wait : ℕ → Action

-- A button with `disabled={loading}`.
abbrev pub unless_loading : Page → D (Unit {0}) → Page
unless_loading p m = if p.loading then p else (m p).1

-- The effect of `[apiKey]`.
abbrev pub on_new_key : Browser → Page → Page → Page
on_new_key b before p = if text_eq before.api_key p.api_key then p else fetch_data b p.api_key p

-- `handleSaveKey`.
abbrev pub handle_save_key : Page → Page
handle_save_key p = record (handle_update_api_key (trim p.temp_key) p) { is_editing_key = false }

abbrev pub clear_due : Page → Page
clear_due p =
    if any (λ c. leb c p.now) p.clears
    then record p { toast = none; clears = select (λ c. not (leb c p.now)) p.clears }
    else p

abbrev pub fetch_each : Browser → List (ℕ × Text) → Page → Page
fetch_each b [] p = p
fetch_each b ((due, key) ∷ rest) p = fetch_each b rest (fetch_data b key p)

abbrev pub timer_due : ℕ → ℕ × Text → Bool
timer_due now r = leb r.0 now

abbrev pub refresh_due : Browser → Page → Page
refresh_due b p =
    fetch_each b (select (timer_due p.now) p.refreshes)
      (record p { refreshes = select (λ r. not (timer_due p.now r)) p.refreshes })

unfoldable pub act : Browser → Page → Action → Page
act b p (select_tab tab) = record p { active_tab = tab }
act b p dismiss_toast = record p { toast = none }
act b p (edit_event_type t) = record p { event_type = t }
act b p (edit_ordering_key t) = record p { ordering_key = t }
act b p (edit_payload t) = record p { payload_json = t }
act b p (edit_idempotency t) = record p { custom_idempotency = t }
act b p configure_key = record p { temp_key = p.api_key; is_editing_key = true }
act b p save_key = on_new_key b p (handle_save_key p)
act b p cancel_key = record p { temp_key = p.api_key; is_editing_key = false }
act b p (edit_key t) = record p { temp_key = t }
act b p (replay id) = unless_loading p (handle_replay b p id)
act b p (reset id) = (handle_reset_circuit b p id p).1
act b p send_event = unless_loading p (handle_send_event b p)
act b p (run_scenario s) = unless_loading p (run_quick_scenario b p s)
act b p poll = fetch_data b p.api_key p
act b p (wait n) = refresh_due b (clear_due (record p { now = p.now + n }))

unfoldable pub acts : Browser → Page → List Action → Page
unfolding act
acts b p [] = p
acts b p (a ∷ rest) = acts b (act b p a) rest
