-- ===== src/Dashboard/Frame.antt =====
-- Predicates on the page of frontend/src/App.tsx that its handlers keep: a rule for each way to build one.
use event_relay.Base.{
  ℕ, ◌+◌, ◌≡◌, refl, Bool, true, false, if◌then◌else◌, Option, none, some, List, [], ◌∷◌, ◌++◌,
  Text, codes, text_eq, or_null, All,
}
use event_relay.Store.{Result, ok, thrown}
use event_relay.Dashboard.Page.{
  EndpointView, DeliveryView, EventBody, Call, Json, Toast, Page, Browser, D, continue, ◌>>=◌, pure,
  get_now, or_throw, recover, try_catch, try_finally,
}
use event_relay.Dashboard.Handlers.{
  with_toast, get_call, post_call, event_call, set_endpoints, set_deliveries, loaded, fetch_data,
}

-- The value of a header.
abbrev pub header_of : Text → List (Text × Text) → Option Text
header_of name [] = none
header_of name ((n, value) ∷ rest) = if text_eq n name then some value else header_of name rest

-- The call has the key in X-API-Key, or no such header where the key is empty.
abbrev pub Carries : Text → Call → Type 0
Carries key c = header_of (codes "X-API-Key") c.headers ≡ or_null (some key)

abbrev pub SameCore : Page → Page → Type 0
SameCore p q =
    (q.toast ≡ p.toast)
    × (q.api_key ≡ p.api_key)
    × (q.stored_key ≡ p.stored_key)
    × (q.sent ≡ p.sent)
    × (q.clears ≡ p.clears)
    × (q.now ≡ p.now)
    × (q.refreshes ≡ p.refreshes)

-- A predicate that calls with the key, timers with it, waiting, messages and the other fields keep.
pub record Frame (key : Text) (P : Page → Type 0) : Type 0 where
  pub sends :
      (p : Page) (cs : List Call)
      → All (Carries key) cs
      → P p
      → P (record p { sent = p.sent ++ cs })
  pub waits : (p : Page) (n : ℕ) → P p → P (record p { now = p.now + n })
  pub shows : (p : Page) (t : Toast) → P p → P (with_toast t p)
  pub later :
      (p : Page) (due : ℕ) → P p → P (record p { refreshes = p.refreshes ++ (due, key) ∷ [] })
  pub sets : (p q : Page) → SameCore p q → P p → P q

get_call-Carries : (key path : Text) → Carries key (get_call key path)
get_call-Carries [] path = refl
get_call-Carries (c ∷ key) path = refl

pub post_call-Carries :
    (v : Page) (key path : Text) → v.api_key ≡ key → Carries key (post_call v path)
post_call-Carries v [] path e = rw e refl
post_call-Carries v (c ∷ key) path e = rw e refl

pub event_call-Carries :
    (v : Page) (key id : Text) (body : EventBody)
    → v.api_key ≡ key
    → Carries key (event_call v id body)
event_call-Carries v [] id body e = rw e refl
event_call-Carries v (c ∷ key) id body e = rw e refl

module _ (key : Text) (P : Page → Type 0) (f : Frame key P) where
  loaded-Keeps : (ep del : Option Json) (p : Page) → P p → P (loaded ep del p)
  loaded-Keeps none del p h = h
  loaded-Keeps (some ep) none p h = h
  loaded-Keeps (some ep) (some del) p h = rows ep.endpoint_rows del.delivery_rows
    where
      rows :
          (es : Option (List EndpointView)) (ds : Option (List DeliveryView))
          → P (set_deliveries ds (set_endpoints es p))
      rows none none = h
      rows none (some ds) = f.sets p _ (refl, refl, refl, refl, refl, refl, refl) h
      rows (some es) none = f.sets p _ (refl, refl, refl, refl, refl, refl, refl) h
      rows (some es) (some ds) = f.sets p _ (refl, refl, refl, refl, refl, refl, refl) h

  pub fetch_data-Keeps : (b : Browser) (p : Page) → P p → P (fetch_data b key p)
  unfolding fetch_data
  fetch_data-Keeps b p h = loaded-Keeps _ _ _ (
      f.sends p _
        (
          get_call-Carries key (codes "/api/endpoints"),
          (get_call-Carries key (codes "/api/deliveries"), tt),
        )
        h)

-- `m` keeps `P`, whether it returns or throws.
pub record Keeps {A : Type 0} (P : Page → Type 0) (m : D A) : Type 0 where
  pub at : (p : Page) → P p → P (m p).1

pub get_now-Keeps : {P : Page → Type 0} → Keeps P get_now
get_now-Keeps = record { at = λ p h. h }

module _ {A : Type 0} {P : Page → Type 0} where
  pub either-Keeps : (t : Bool) (m n : D A) → Keeps P m → Keeps P n → Keeps P (if t then m else n)
  either-Keeps true m n hm hn = hm
  either-Keeps false m n hm hn = hn

  pub or_throw-Keeps : (a : Option A) → Keeps P (or_throw a)
  or_throw-Keeps none = record { at = λ p h. h }
  or_throw-Keeps (some a) = record { at = λ p h. h }

  pub pure-Keeps : (a : A) → Keeps P (pure a)
  pure-Keeps a = record { at = λ p h. h }

  pub recover_at : (r : Result A × Page) (h : D A) → P r.1 → Keeps P h → P (recover r h).1
  recover_at (ok a, p) h hp hk = hp
  recover_at (thrown, p) h hp hk = hk.at p hp

  pub try_catch-Keeps : (m h : D A) → Keeps P m → Keeps P h → Keeps P (try_catch m h)
  try_catch-Keeps m h hm hh = record { at = λ p hp. recover_at (m p) h (hm.at p hp) hh }

  pub finally-Keeps :
      (m : D A) (f : Page → Page)
      → Keeps P m
      → ((p : Page) → P p → P (f p))
      → Keeps P (try_finally m f)
  finally-Keeps m f hm hf = record { at = λ p hp. hf (m p).1 (hm.at p hp) }

module _ {A B : Type 0} {P : Page → Type 0} where
  pub continue_at :
      (r : Result A × Page) (k : A → D B) → P r.1 → ((a : A) → Keeps P (k a)) → P (continue r k).1
  continue_at (ok a, p) k h kk = (kk a).at p h
  continue_at (thrown, p) k h kk = h

  pub bind-Keeps :
      (m : D A) (k : A → D B) → Keeps P m → ((a : A) → Keeps P (k a)) → Keeps P (m >>= k)
  bind-Keeps m k hm hk = record { at = λ p hp. continue_at (m p) k (hm.at p hp) hk }

pub ruleset keeps_rules = (
  either-Keeps, or_throw-Keeps, pure-Keeps, get_now-Keeps, try_catch-Keeps, finally-Keeps,
  bind-Keeps,
)
