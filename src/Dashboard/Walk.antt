-- ===== src/Dashboard/Walk.antt =====
-- What all the handlers of frontend/src/App.tsx leave alone, by one walk through them.
use event_relay.Base.{
  ℕ, zero, suc, ◌+◌, ◌≡◌, refl, true, false, ◌||◌, Option, none, some, List, [], ◌∷◌, find, Text,
}
use event_relay.Dashboard.Page.{
  DeliveryView, Tab, EventBody, Call, Reply, Toast, nothing_to_replay, Page, Browser, update_page,
  arrived, fetch,
}
use event_relay.Dashboard.Handlers.{
  with_toast, post_call, event_call, fetch_data, replay_answered, handle_replay, reset_answered,
  handle_reset_circuit, send_answered, handle_send_event, is_dead_letter,
}
use event_relay.Dashboard.Scenarios.{
  Scenario, happy, idempotent, circuit, replay_dlq, is_retrying, outage_body, run_happy,
  run_idempotent, send_outages, run_circuit, replay_first, run_replay, scenario_steps,
  run_quick_scenario, fetch_later, open_tab,
}
use event_relay.Dashboard.Frame.{
  Frame, Carries, Keeps, fetch_data-Keeps, post_call-Carries, event_call-Carries, pure-Keeps,
  get_now-Keeps, bind-Keeps, continue_at, keeps_rules,
}

module _ (key : Text) (P : Page → Type 0) (f : Frame key P) where
  toast-Keeps : (t : Toast) → Keeps P (update_page (with_toast t))
  toast-Keeps t = record { at = λ p h. f.shows p t h }

  arrived_at : (res : Option Reply) (p : Page) → P p → P (arrived res p).1
  arrived_at none p h = h
  arrived_at (some res) p h = f.waits p res.took h

  fetch-Keeps : (b : Browser) (c : Call) → Carries key c → Keeps P (fetch b c)
  unfolding fetch
  fetch-Keeps b c h = record { at = λ p hp. arrived_at _ _ (f.sends p (c ∷ []) (h, tt) hp) }

  idle_at : (p : Page) → P p → P (record p { loading = false })
  idle_at p h = f.sets p _ (refl, refl, refl, refl, refl, refl, refl) h

  busy-Keeps : Keeps P (update_page (λ p. record p { loading = true }))
  busy-Keeps = record { at = λ p h. f.sets p _ (refl, refl, refl, refl, refl, refl, refl) h }

  module _ (b : Browser) (v : Page) (same : v.api_key ≡ key) where
    refetch : Keeps P (update_page (fetch_data b v.api_key))
    refetch = rw same (record { at = fetch_data-Keeps key P f b })

    post-Keeps : (path : Text) → Keeps P (fetch b (post_call v path))
    post-Keeps path = fetch-Keeps b _ (post_call-Carries v key path same)

    event-Keeps : (id : Text) (body : EventBody) → Keeps P (fetch b (event_call v id body))
    event-Keeps id body = fetch-Keeps b _ (event_call-Carries v key id body same)

    replay_answered-Keeps :
        (id : Text) (t0 : ℕ) (res : Reply) → Keeps P (replay_answered b v id t0 res)
    replay_answered-Keeps id t0 res = search (keeps_rules, toast-Keeps, refetch)

    pub handle_replay-Keeps : (id : Text) → Keeps P (handle_replay b v id)
    unfolding handle_replay
    handle_replay-Keeps id =
        search (keeps_rules, toast-Keeps, post-Keeps, busy-Keeps, idle_at, replay_answered-Keeps)
          depth 12

    reset_answered-Keeps : (res : Reply) → Keeps P (reset_answered b v res)
    reset_answered-Keeps res = search (keeps_rules, toast-Keeps, refetch)

    pub handle_reset_circuit-Keeps : (id : Text) → Keeps P (handle_reset_circuit b v id)
    unfolding handle_reset_circuit
    handle_reset_circuit-Keeps id =
        search (keeps_rules, toast-Keeps, post-Keeps, reset_answered-Keeps) depth 12

    renamed-Keeps :
        (f : Page → Text) → Keeps P (update_page (λ p. record p { custom_idempotency = f p }))
    renamed-Keeps g = record { at = λ p h. f.sets p _ (refl, refl, refl, refl, refl, refl, refl) h }

    send_answered-Keeps : (t0 : ℕ) (res : Reply) → Keeps P (send_answered b v t0 res)
    send_answered-Keeps t0 res = search (keeps_rules, toast-Keeps, refetch, renamed-Keeps) depth 12

    pub handle_send_event-Keeps : Keeps P (handle_send_event b v)
    unfolding handle_send_event
    handle_send_event-Keeps =
        search (keeps_rules, toast-Keeps, event-Keeps, busy-Keeps, idle_at, send_answered-Keeps)
          depth 12

    later-Keeps : (delay : ℕ) → Keeps P (fetch_later v.api_key delay)
    later-Keeps delay = rw same (record { at = λ p h. f.later p (p.now + delay) h })

    tab-Keeps : (tab : Tab) → Keeps P (open_tab tab)
    tab-Keeps tab = record { at = λ p h. f.sets p _ (refl, refl, refl, refl, refl, refl, refl) h }

    run_happy-Keeps : Keeps P (run_happy b v)
    unfolding run_happy
    run_happy-Keeps =
        search (keeps_rules, get_now-Keeps, toast-Keeps, event-Keeps, later-Keeps, tab-Keeps) depth
          16

    run_idempotent-Keeps : Keeps P (run_idempotent b v)
    unfolding run_idempotent
    run_idempotent-Keeps =
        search (keeps_rules, get_now-Keeps, toast-Keeps, event-Keeps, later-Keeps, tab-Keeps) depth
          24

    send_outages-Keeps : (ids : Option (List Text)) (i n : ℕ) → Keeps P (send_outages b v ids i n)
    unfolding send_outages
    send_outages-Keeps ids i zero = pure-Keeps tt
    send_outages-Keeps ids i (suc n) = record {
      at = λ p h.
          continue_at _ _ ((event-Keeps _ (outage_body ids i)).at p h)
            (λ _. send_outages-Keeps ids (suc i) n);
    }

    run_circuit-Keeps : Keeps P (run_circuit b v)
    unfolding run_circuit
    run_circuit-Keeps =
        search (keeps_rules, get_now-Keeps, toast-Keeps, send_outages-Keeps, later-Keeps, tab-Keeps)
          depth 16

    replay_first-Keeps : (d : Option DeliveryView) → Keeps P (replay_first b v d)
    replay_first-Keeps none = toast-Keeps nothing_to_replay
    replay_first-Keeps (some d) =
        search (keeps_rules, get_now-Keeps, toast-Keeps, handle_replay-Keeps) depth 16

    scenario_steps-Keeps : (s : Scenario) → Keeps P (scenario_steps b v s)
    unfolding run_replay
    scenario_steps-Keeps happy = run_happy-Keeps
    scenario_steps-Keeps idempotent = run_idempotent-Keeps
    scenario_steps-Keeps circuit = run_circuit-Keeps
    scenario_steps-Keeps replay_dlq =
        bind-Keeps (replay_first b v (find (λ d. is_dead_letter d || is_retrying d) v.deliveries)) _
          (replay_first-Keeps _) (λ _. search (keeps_rules, later-Keeps, tab-Keeps))

    pub run_quick_scenario-Keeps : (s : Scenario) → Keeps P (run_quick_scenario b v s)
    unfolding run_quick_scenario
    run_quick_scenario-Keeps s =
        search (keeps_rules, toast-Keeps, busy-Keeps, idle_at, scenario_steps-Keeps) depth 12
