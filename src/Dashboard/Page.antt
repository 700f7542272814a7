-- ===== src/Dashboard/Page.antt =====
-- The state of frontend/src/App.tsx, and what its handlers do to it: calls of `fetch`, which the browser
-- answers or rejects, and updates of the state. A handler runs alone.
use event_relay.Base.{
  ℕ, ◌+◌, Bool, ◌&&◌, leb, Option, none, some, List, [], ◌∷◌, ◌++◌, length, Text,
}
use event_relay.Store.{Result, ok, thrown}

-- `Endpoint` and `Delivery` of frontend/src/types.ts.
pub record EndpointView : Type 0 where
  pub id : Text
  pub name : Text
  pub url : Text
  pub rate_limit_rps : ℕ
  pub circuit_state : Text
  pub circuit_failures : ℕ
  pub secret_preview : Option Text
  pub max_retries : Option ℕ

pub data Shown : Type 0 where
  success retrying dead_letter : Shown

pub record DeliveryView : Type 0 where
  pub id : Text
  pub event_id : Text
  pub event_type : Text
  pub endpoint_name : Text
  pub attempt_number : ℕ
  pub http_status : Option ℕ
  pub duration_ms : Option ℕ
  pub error_message : Option Text
  pub status : Shown
  pub created_at : Text

pub data Tab : Type 0 where
  deliveries endpoints dlq test : Tab

-- The body of `POST /api/events` before `JSON.stringify`, with the payload as that writes it.
pub record EventBody : Type 0 where
  pub event_type : Text
  pub payload : Text
  pub ordering_key : Option Text
  pub endpoint_ids : Option (List Text)

-- A call of `fetch`: a GET has no body.
pub record Call : Type 0 where
  pub is_post : Bool
  pub path : Text
  pub headers : List (Text × Text)
  pub body : Option EventBody

-- What the page reads of a JSON answer: the rows, if it is an array of them, and two fields.
pub record Json : Type 0 where
  pub endpoint_rows : Option (List EndpointView)
  pub delivery_rows : Option (List DeliveryView)
  pub duplicate : Bool
  pub error : Option Text

-- An answer; `json` is none if its body does not parse, and `took` is how long it was waited for.
pub record Reply : Type 0 where
  pub status : ℕ
  pub status_text : Text
  pub json : Option Json
  pub took : ℕ

-- `res.ok`.
abbrev pub is_ok : Reply → Bool
is_ok res = leb 200 res.status && leb res.status 299

-- The messages of `showToast`, with the values that stand in them.
pub data Toast : Type 0 where
  key_configured key_cleared replay_error reset_done reset_error invalid_payload : Toast
  nothing_to_replay scenario_error : Toast
  replay_failed : ℕ → Text → Toast
  replay_queued : ℕ → Text → Toast
  reset_failed : ℕ → Text → Toast
  duplicate_intercepted : ℕ → Toast
  event_ingested : ℕ → Toast
  request_failed : ℕ → Text → Toast
  payment_ingested : ℕ → ℕ → Toast
  scenario_duplicate : ℕ → Toast
  scenario_ingested : ℕ → Toast
  circuit_tripped : ℕ → Toast
  scenario_replayed : Text → ℕ → Toast

pub record Page : Type 0 where
  pub active_tab : Tab
  pub endpoints : List EndpointView
  pub deliveries : List DeliveryView
  pub loading : Bool
  pub toast : Option Toast
  pub api_key : Text
  pub event_type : Text
  pub ordering_key : Text
  pub payload_json : Text
  pub custom_idempotency : Text
  pub is_editing_key : Bool
  pub temp_key : Text
  -- The browser: `localStorage`, the calls so far, the times at which a timer clears the toast or
  -- fetches again (with the key of the page that set it), and the clock.
  pub stored_key : Option Text
  pub sent : List Call
  pub clears : List ℕ
  pub refreshes : List (ℕ × Text)
  pub now : ℕ

-- The answer of each call, by its number, or none where `fetch` rejects; `JSON.stringify` after
-- `JSON.parse`, where that does not throw; and a random number of five digits, at each time.
pub record Browser : Type 0 where
  pub answer : ℕ → Call → Option Reply
  pub normal_json : Text → Option Text
  pub order_number : ℕ → ℕ

abbrev pub D : Type 0 → Type 0
D A = Page → Result A × Page

abbrev pub continue : {A B : Type 0} → Result A × Page → (A → D B) → Result B × Page
continue (ok a, p) f = f a p
continue (thrown, p) f = (thrown, p)

infixl 5 ◌>>=◌ ◌>>◌
abbrev pub ◌>>=◌ : {A B : Type 0} → D A → (A → D B) → D B
◌>>=◌ m f p = continue (m p) f

abbrev pub ◌>>◌ : {A B : Type 0} → D A → D B → D B
◌>>◌ m k p = continue (m p) (λ _. k)

abbrev pub pure : {A : Type 0} → A → D A
pure a p = (ok a, p)

abbrev pub update_page : (Page → Page) → D (Unit {0})
update_page f p = (ok tt, f p)

abbrev pub get_now : D ℕ
get_now p = (ok p.now, p)

-- `throw`, or a value that is not there.
abbrev pub or_throw : {A : Type 0} → Option A → D A
or_throw none p = (thrown, p)
or_throw (some a) p = (ok a, p)

abbrev pub recover : {A : Type 0} → Result A × Page → D A → Result A × Page
recover (ok a, p) h = (ok a, p)
recover (thrown, p) h = h p

abbrev pub try_catch : {A : Type 0} → D A → D A → D A
try_catch m h p = recover (m p) h

-- `finally` with a body that cannot throw.
abbrev pub and_finally : {A : Type 0} → Result A × Page → (Page → Page) → Result A × Page
and_finally (r, p) f = (r, f p)

abbrev pub try_finally : {A : Type 0} → D A → (Page → Page) → D A
try_finally m f p = and_finally (m p) f

abbrev pub arrived : Option Reply → D Reply
arrived none p = (thrown, p)
arrived (some res) p = (ok res, record p { now = p.now + res.took })

-- `await fetch(…)`.
unfoldable pub fetch : Browser → Call → D Reply
fetch b c p = arrived (b.answer (length p.sent) c) (record p { sent = p.sent ++ c ∷ [] })
