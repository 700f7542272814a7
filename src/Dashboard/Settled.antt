-- ===== src/Dashboard/Settled.antt =====
-- What holds of the page of frontend/src/App.tsx between the user's actions.
use event_relay.Base.{
  ℕ, ◌+◌, ◌≤◌, ◌≡◌, refl, ◌∙◌, ◌⊎◌, inl, inr, Bool, true, false, not, leb, Bool-cases,
  if◌then◌else◌, Option, none, List, [], ◌∷◌, any, Any, Any-append_right, Text, text_eq, arith,
  select,
}
use event_relay.Base.Trim.{trim}
use event_relay.Dashboard.Page.{Page, Browser}
use event_relay.Dashboard.Handlers.{
  stored_value, new_page, handle_update_api_key, fetch_data, handle_replay, handle_send_event,
}
use event_relay.Dashboard.Scenarios.{run_quick_scenario}
use event_relay.Dashboard.Actions.{
  Action, select_tab, dismiss_toast, edit_event_type, edit_ordering_key, edit_payload,
  edit_idempotency, configure_key, save_key, cancel_key, edit_key, replay, reset, send_event,
  run_scenario, poll, wait, act, acts, fetch_each, timer_due, refresh_due, clear_due,
  handle_save_key,
}
use event_relay.Dashboard.Frame.{Frame, fetch_data-Keeps}
use event_relay.Dashboard.Walk.{
  handle_replay-Keeps, handle_reset_circuit-Keeps, handle_send_event-Keeps,
  run_quick_scenario-Keeps,
}
use event_relay.Dashboard.View.{
  fetch_data-SameView, handle_reset_circuit-loading, clear_due-loading, refresh_due-SameView,
}

-- The key is the one in the store, and a message on the page has a timer that clears it within four
-- seconds.
abbrev pub Fades : Page → Type 0
Fades p = (p.toast ≡ none) ⊎ Any (λ c. c ≤ p.now + 4000) p.clears

abbrev pub Core : Page → Type 0
Core p = (stored_value p.stored_key ≡ p.api_key) × Fades p

abbrev pub Settled : Page → Type 0
Settled p = (p.loading ≡ false) × Core p

later_still : (cs : List ℕ) (m n : ℕ) → Any (λ c. c ≤ m + 4000) cs → Any (λ c. c ≤ m + n + 4000) cs
later_still [] m n h = absurd h
later_still (c ∷ cs) m n (inl h) = inl (omega (arith, h))
later_still (c ∷ cs) m n (inr h) = inr (later_still cs m n h)

Fades-waits : (p : Page) (n : ℕ) → Fades p → Fades (record p { now = p.now + n })
Fades-waits p n (inl e) = inl e
Fades-waits p n (inr h) = inr (later_still p.clears p.now n h)

Core-Frame : (key : Text) → Frame key Core
Core-Frame key = record {
  sends = λ p cs c h. h;
  waits = λ p n h. (h.0, Fades-waits p n h.1);
  shows =
      λ p t h. (h.0, inr (Any-append_right (λ c. c ≤ p.now + 4000) p.clears _ (inl (omega arith))));
  later = λ p due h. h;
  sets = λ p q (t, k, s, e, c, n, r) h. rw (t, k, s, c, n) h;
}

fetch_each-Core :
    (b : Browser) (rs : List (ℕ × Text)) (p : Page) → Core p → Core (fetch_each b rs p)
fetch_each-Core b [] p h = h
fetch_each-Core b ((due, key) ∷ rs) p h =
    fetch_each-Core b rs _ (fetch_data-Keeps key Core (Core-Frame key) b p h)

clear_due-Core : (p : Page) → Core p → Core (clear_due p)
clear_due-Core p h = elim (Bool-cases (any (λ c. leb c p.now) p.clears)) [
  | inl e ↦ rw e (h.0, inl refl)
  | inr e ↦ rw e h
]

saved-Settled : (key : Text) (p : Page) → p.loading ≡ false → Settled (handle_update_api_key key p)
unfolding handle_update_api_key
saved-Settled key p idle =
    (idle, (refl, inr (Any-append_right (λ c. c ≤ p.now + 4000) p.clears _ (inl (omega arith)))))

fetch_data-Settled :
    (b : Browser) (key : Text) (p : Page) → Settled p → Settled (fetch_data b key p)
fetch_data-Settled b key p (idle, core) =
    ((fetch_data-SameView b key p).0 ∙ idle, fetch_data-Keeps key Core (Core-Frame key) b p core)

refresh_due-Settled : (b : Browser) (q : Page) → Settled q → Settled (refresh_due b q)
refresh_due-Settled b q (idle, core) = (
  (refresh_due-SameView b q).0 ∙ idle,
  fetch_each-Core b (select (timer_due q.now) q.refreshes)
      (record q { refreshes = select (λ r. not (timer_due q.now r)) q.refreshes }) core,
)

either-Settled : (t : Bool) (p q : Page) → Settled p → Settled q → Settled (if t then p else q)
either-Settled true p q hp hq = hp
either-Settled false p q hp hq = hq

act-Settled : (b : Browser) (p : Page) (a : Action) → Settled p → Settled (act b p a)
unfolding act
act-Settled b p (select_tab tab) h = h
act-Settled b p dismiss_toast h = (h.0, (h.1.0, inl refl))
act-Settled b p (edit_event_type t) h = h
act-Settled b p (edit_ordering_key t) h = h
act-Settled b p (edit_payload t) h = h
act-Settled b p (edit_idempotency t) h = h
act-Settled b p configure_key h = h
act-Settled b p save_key h =
    let saved = saved-Settled (trim p.temp_key) p h.0 in
    elim (Bool-cases (text_eq p.api_key (handle_save_key p).api_key)) [
      | inl e ↦ rw e saved
      | inr e ↦ rw e (fetch_data-Settled b _ (handle_save_key p) saved)
    ]
act-Settled b p cancel_key h = h
act-Settled b p (edit_key t) h = h
act-Settled b p (replay id) h = either-Settled p.loading p _ h (
  unfold handle_replay in refl,
  (handle_replay-Keeps p.api_key Core (Core-Frame p.api_key) b p refl id).at p h.1,
)
act-Settled b p (reset id) (idle, core) = (
  handle_reset_circuit-loading b p id p ∙ idle,
  (handle_reset_circuit-Keeps p.api_key Core (Core-Frame p.api_key) b p refl id).at p core,
)
act-Settled b p send_event h = either-Settled p.loading p _ h (
  unfold handle_send_event in refl,
  (handle_send_event-Keeps p.api_key Core (Core-Frame p.api_key) b p refl).at p h.1,
)
act-Settled b p (run_scenario s) h = either-Settled p.loading p _ h (
  unfold run_quick_scenario in refl,
  (run_quick_scenario-Keeps p.api_key Core (Core-Frame p.api_key) b p refl s).at p h.1,
)
act-Settled b p poll h = fetch_data-Settled b p.api_key p h
act-Settled b p (wait n) (idle, core) =
    let q : Page = record p { now = p.now + n } in
    refresh_due-Settled b (clear_due q)
      (clear_due-loading q ∙ idle, clear_due-Core q (core.0, Fades-waits p n core.1))

acts-Settled : (b : Browser) (done : List Action) (p : Page) → Settled p → Settled (acts b p done)
unfolding acts
acts-Settled b [] p h = h
acts-Settled b (a ∷ done) p h = acts-Settled b done (act b p a) (act-Settled b p a h)

due_in_time :
    (cs : List ℕ) (now n : ℕ)
    → 4000 ≤ n
    → Any (λ c. c ≤ now + 4000) cs
    → any (λ c. leb c (now + n)) cs ≡ true
due_in_time [] now n le h = absurd h
due_in_time (c ∷ cs) now n le (inl h) = ground arith
due_in_time (c ∷ cs) now n le (inr h) = ground (arith, due_in_time cs now n le h)

cleared :
    (p : Page) (n : ℕ)
    → 4000 ≤ n
    → Fades p
    → (clear_due (record p { now = p.now + n })).toast ≡ none
cleared p n le (inr h) = rw (due_in_time p.clears p.now n le h) refl
cleared p n le (inl e) = elim (Bool-cases (any (λ c. leb c (p.now + n)) p.clears)) [
  | inl d ↦ rw d refl
  | inr d ↦ rw d e
]

wait-toast : (b : Browser) (p : Page) (n : ℕ) → 4000 ≤ n → Fades p → (act b p (wait n)).toast ≡ none
unfolding act
wait-toast b p n le h =
    (refresh_due-SameView b (clear_due (record p { now = p.now + n }))).1 ∙ cleared p n le h

-- Whatever the user did since the page was opened, and whatever the server answered or failed to:
-- nothing is loading, so that no button stays disabled; the key is the stored one, which the next visit
-- starts with; and a message goes by itself within four seconds.
pub page_settles :
    (b : Browser) (stored : Option Text) (start : ℕ) (done : List Action) (n : ℕ)
    → 4000 ≤ n
    → ((acts b (new_page stored start) done).loading ≡ false)
      × ((new_page (acts b (new_page stored start) done).stored_key n).api_key
          ≡ (acts b (new_page stored start) done).api_key)
      × ((act b (acts b (new_page stored start) done) (wait n)).toast ≡ none)
unfolding new_page act
page_settles b stored start done n le =
    let (idle, (key, fades)) =
      acts-Settled b done (new_page stored start) (refl, (refl, inl refl)) in
    (idle, key, wait-toast b (acts b (new_page stored start) done) n le fades)
