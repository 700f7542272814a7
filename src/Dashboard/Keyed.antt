-- ===== src/Dashboard/Keyed.antt =====
-- The calls of frontend/src/App.tsx and the key check of backend/src/middleware/auth.ts.
use event_relay.Base.{
  ℕ, ◌≡◌, refl, sym, ap, ◌∙◌, Bool, true, false, if◌then◌else◌, none, some, List, [], ◌∷◌, ◌++◌,
  All, All-append, All-select, select, any, leb, not, ◌+◌, All-imp, Text, or_null, text_eq_self,
  ==_self, length,
}
use event_relay.Base.Trim.{trim}
use mathlib.Core.List.{append-nil, append_assoc}
use event_relay.Http.{Request, next}
use event_relay.Auth.{KeyConfig, provided_key, require_api_key}
use event_relay.Dashboard.Page.{Call, Page, Browser}
use event_relay.Dashboard.Handlers.{fetch_data}
use event_relay.Dashboard.Actions.{
  Action, select_tab, dismiss_toast, edit_event_type, edit_ordering_key, edit_payload,
  edit_idempotency, configure_key, save_key, cancel_key, edit_key, replay, reset, send_event,
  run_scenario, poll, wait, act, acts, fetch_each, clear_due, refresh_due, timer_due,
}
use event_relay.Dashboard.Frame.{header_of, Carries, Frame, fetch_data-Keeps}
use event_relay.Dashboard.Walk.{
  handle_replay-Keeps, handle_reset_circuit-Keeps, handle_send_event-Keeps,
  run_quick_scenario-Keeps,
}

-- The headers of a call, as Express hands them to a handler.
abbrev pub as_request : Call → Request
as_request c = record { header = λ name. header_of name c.headers; query = λ q. none; ip = none }

-- The action does not set another key.
abbrev pub KeepsKey : Action → Type 0
KeepsKey save_key = ⊥
KeepsKey _ = Unit {0}

module _ (bytes : Text → List ℕ) (config : KeyConfig) (secret : Text) where
  -- The key, as the page holds it, is the configured one.
  abbrev pub IsRight : Text → Type 0
  IsRight key =
      (given : Text) × (or_null (some (trim key)) ≡ some given) × (bytes given ≡ bytes secret)

  abbrev pub Passes : Call → Type 0
  Passes c = require_api_key bytes config (as_request c) ≡ next []

  -- The calls since `before` pass.
  abbrev pub PassedSince : List Call → Page → Type 0
  PassedSince before p = (cs : List Call) × (p.sent ≡ before ++ cs) × All Passes cs

  -- The page has the right key, and so have its timers.
  abbrev pub RightKeys : Page → Type 0
  RightKeys p = IsRight p.api_key × All (λ r. IsRight r.1) p.refreshes

  module _ (configured : or_null config.api_key ≡ some secret) where
    right-Passes : (key : Text) (c : Call) → IsRight key → Carries key c → Passes c
    unfolding require_api_key provided_key trim
    right-Passes [] c (given, e, same) carry = cc
    right-Passes (k ∷ key) c (given, e, same) carry =
        rw (configured, carry)
          (rw e (rw (same, ==_self (length (bytes secret)), text_eq_self (bytes secret)) refl))

    module _ (before : List Call) where
      abbrev Guarded : Text → Page → Type 0
      Guarded key p =
          (p.api_key ≡ key)
          × IsRight key
          × All (λ r. IsRight r.1) p.refreshes
          × PassedSince before p

      Guarded-Frame : (page_key key : Text) → IsRight key → Frame key (Guarded page_key)
      Guarded-Frame page_key key right = record {
        sends = λ p cs carry (same, r, later, (old, e, h)). (
          same,
          r,
          later,
          (
            old ++ cs,
            ap (λ l. l ++ cs) e ∙ append_assoc before old cs,
            All-append Passes old cs h
                (All-imp (Carries key) Passes cs (λ c. right-Passes key c right) carry),
          ),
        );
        waits = λ p n h. h;
        shows = λ p t h. h;
        later = λ p due (same, r, later, sent).
            (same, r, All-append (λ x. IsRight x.1) p.refreshes _ later (right, tt), sent);
        sets = λ p q (t, k, s, e, c, n, r) h. rw (k, r, e) h;
      }

      fetch_each-Guarded :
          (b : Browser) (key : Text) (rs : List (ℕ × Text)) (p : Page)
          → All (λ r. IsRight r.1) rs
          → Guarded key p
          → Guarded key (fetch_each b rs p)
      fetch_each-Guarded b key [] p rights h = h
      fetch_each-Guarded b key ((due, k) ∷ rs) p rights h =
          fetch_each-Guarded b key rs (fetch_data b k p) rights.1
            (fetch_data-Keeps k (Guarded key) (Guarded-Frame key k rights.0) b p h)

      either-Guarded :
          (key : Text) (t : Bool) (p q : Page)
          → Guarded key p
          → Guarded key q
          → Guarded key (if t then p else q)
      either-Guarded key true p q hp hq = hp
      either-Guarded key false p q hp hq = hq

      clear_due-Guarded : (key : Text) (p : Page) → Guarded key p → Guarded key (clear_due p)
      clear_due-Guarded key p h = either-Guarded key (any (λ c. leb c p.now) p.clears) _ p h h

      refresh_due-Guarded :
          (b : Browser) (key : Text) (p : Page) → Guarded key p → Guarded key (refresh_due b p)
      refresh_due-Guarded b key p (same, right, later, sent) =
          fetch_each-Guarded b key (select (timer_due p.now) p.refreshes)
            (record p { refreshes = select (λ r. not (timer_due p.now r)) p.refreshes })
            (All-select (λ r. IsRight r.1) (timer_due p.now) p.refreshes later)
            (
              same,
              right,
              All-select (λ r. IsRight r.1) (λ r. not (timer_due p.now r)) p.refreshes later,
              sent,
            )

      act-Guarded :
          (b : Browser) (p : Page) (a : Action)
          → KeepsKey a
          → RightKeys p
          → PassedSince before p
          → Guarded p.api_key (act b p a)
      unfolding act
      act-Guarded b p (select_tab tab) k (r, later) s = (refl, r, later, s)
      act-Guarded b p dismiss_toast k (r, later) s = (refl, r, later, s)
      act-Guarded b p (edit_event_type t) k (r, later) s = (refl, r, later, s)
      act-Guarded b p (edit_ordering_key t) k (r, later) s = (refl, r, later, s)
      act-Guarded b p (edit_payload t) k (r, later) s = (refl, r, later, s)
      act-Guarded b p (edit_idempotency t) k (r, later) s = (refl, r, later, s)
      act-Guarded b p configure_key k (r, later) s = (refl, r, later, s)
      act-Guarded b p save_key k (r, later) s = absurd k
      act-Guarded b p cancel_key k (r, later) s = (refl, r, later, s)
      act-Guarded b p (edit_key t) k (r, later) s = (refl, r, later, s)
      act-Guarded b p (replay id) k (r, later) s =
          either-Guarded p.api_key p.loading p _ (refl, r, later, s)
            ((handle_replay-Keeps p.api_key (Guarded p.api_key)
                (Guarded-Frame p.api_key p.api_key r) b p refl id).at
              p (refl, r, later, s))
      act-Guarded b p (reset id) k (r, later) s =
          (handle_reset_circuit-Keeps p.api_key (Guarded p.api_key)
              (Guarded-Frame p.api_key p.api_key r) b p refl id).at
            p (refl, r, later, s)
      act-Guarded b p send_event k (r, later) s =
          either-Guarded p.api_key p.loading p _ (refl, r, later, s)
            ((handle_send_event-Keeps p.api_key (Guarded p.api_key)
                (Guarded-Frame p.api_key p.api_key r) b p refl).at
              p (refl, r, later, s))
      act-Guarded b p (run_scenario sc) k (r, later) s =
          either-Guarded p.api_key p.loading p _ (refl, r, later, s)
            ((run_quick_scenario-Keeps p.api_key (Guarded p.api_key)
                (Guarded-Frame p.api_key p.api_key r) b p refl sc).at
              p (refl, r, later, s))
      act-Guarded b p poll k (r, later) s =
          fetch_data-Keeps p.api_key (Guarded p.api_key) (Guarded-Frame p.api_key p.api_key r) b p
            (refl, r, later, s)
      act-Guarded b p (wait n) k (r, later) s =
          refresh_due-Guarded b p.api_key (clear_due (record p { now = p.now + n }))
            (clear_due-Guarded p.api_key (record p { now = p.now + n }) (refl, r, later, s))

      acts-Guarded :
          (b : Browser) (done : List Action) (p : Page)
          → All KeepsKey done
          → RightKeys p
          → PassedSince before p
          → PassedSince before (acts b p done)
      unfolding acts
      acts-Guarded b [] p k r s = s
      acts-Guarded b (a ∷ done) p k r s =
          let (same, right, later, sent) = act-Guarded b p a k.0 r s in
          acts-Guarded b done (act b p a) k.1 (rw same right, later) sent

    -- Once the page has the configured key, and so have its timers, every request that it sends, whatever
    -- the user does apart from saving another key and whatever the server answers, passes the key check of
    -- the server.
    pub dashboard_passes :
        (b : Browser) (p : Page) (done : List Action)
        → RightKeys p
        → All KeepsKey done
        → PassedSince p.sent (acts b p done)
    dashboard_passes b p done right keep =
        acts-Guarded p.sent b done p keep right ([], sym (append-nil p.sent), tt)
