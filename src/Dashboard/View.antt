-- ===== src/Dashboard/View.antt =====
-- What the answers of the server leave of the page of frontend/src/App.tsx.
use event_relay.Base.{
  ℕ, ◌≡◌, refl, ◌∙◌, inl, inr, not, leb, Bool-cases, Option, none, some, List, [], ◌∷◌, ◌++◌, any,
  Text, codes, length, select,
}
use event_relay.Dashboard.Page.{
  EndpointView, DeliveryView, Json, Reply, is_ok, reset_error, Page, Browser, continue, recover,
  arrived, fetch,
}
use event_relay.Dashboard.Handlers.{
  set_endpoints, set_deliveries, loaded, fetch_data, reset_answered, show_toast, post_call,
  handle_reset_circuit,
}
use event_relay.Dashboard.Actions.{fetch_each, timer_due, refresh_due, clear_due}

-- The rows that arrive leave the rest of the page as it is.
abbrev pub SameView : Page → Page → Type 0
SameView p q = (q.loading ≡ p.loading) × (q.toast ≡ p.toast)

pub loaded-SameView : (ep del : Option Json) (p : Page) → SameView p (loaded ep del p)
loaded-SameView none del p = (refl, refl)
loaded-SameView (some ep) none p = (refl, refl)
loaded-SameView (some ep) (some del) p = rows ep.endpoint_rows del.delivery_rows
  where
    rows :
        (es : Option (List EndpointView)) (ds : Option (List DeliveryView))
        → SameView p (set_deliveries ds (set_endpoints es p))
    rows none none = (refl, refl)
    rows none (some ds) = (refl, refl)
    rows (some es) none = (refl, refl)
    rows (some es) (some ds) = (refl, refl)

pub fetch_data-SameView : (b : Browser) (key : Text) (p : Page) → SameView p (fetch_data b key p)
unfolding fetch_data
fetch_data-SameView b key p = loaded-SameView _ _ _

pub fetch_each-SameView :
    (b : Browser) (rs : List (ℕ × Text)) (p : Page) → SameView p (fetch_each b rs p)
fetch_each-SameView b [] p = (refl, refl)
fetch_each-SameView b ((due, key) ∷ rs) p =
    let (l, t) = fetch_each-SameView b rs (fetch_data b key p) in
    let (l', t') = fetch_data-SameView b key p in (l ∙ l', t ∙ t')

-- Resetting a circuit does not touch the flag.
reset_idle :
    (b : Browser) (v : Page) (res : Option Reply) (p : Page)
    → (recover (continue (arrived res p) (reset_answered b v)) (show_toast reset_error)).1.loading
      ≡ p.loading
reset_idle b v none p = refl
reset_idle b v (some res) p = elim (Bool-cases (is_ok res)) [
  | inl e ↦ rw e (fetch_data-SameView b v.api_key _).0
  | inr e ↦ rw e refl
]

pub handle_reset_circuit-loading :
    (b : Browser) (v : Page) (id : Text) (p : Page)
    → (handle_reset_circuit b v id p).1.loading ≡ p.loading
unfolding handle_reset_circuit fetch
handle_reset_circuit-loading b v id p =
    let call = post_call v (codes "/api/circuits/" ++ (id ++ codes "/reset")) in
    reset_idle b v (b.answer (length p.sent) call) (record p { sent = p.sent ++ call ∷ [] })

pub clear_due-loading : (p : Page) → (clear_due p).loading ≡ p.loading
clear_due-loading p = elim (Bool-cases (any (λ c. leb c p.now) p.clears)) [
  | inl e ↦ rw e refl
  | inr e ↦ rw e refl
]

pub refresh_due-SameView : (b : Browser) (q : Page) → SameView q (refresh_due b q)
refresh_due-SameView b q =
    fetch_each-SameView b (select (timer_due q.now) q.refreshes)
      (record q { refreshes = select (λ r. not (timer_due q.now r)) q.refreshes })
