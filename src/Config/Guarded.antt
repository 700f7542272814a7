-- ===== src/Config/Guarded.antt =====
-- What the refusal to start in backend/src/config/index.ts means for the requests that
-- backend/src/middleware/auth.ts lets through.
use event_relay.Base.{
  ℕ, ◌≡◌, ap, ◌∙◌, inl, inr, true, false, Bool-cases, Option, none, some, List, Text, or_null,
}
use event_relay.Http.{Request, Gate, next, answered}
use event_relay.Auth.{KeyConfig, require_api_key}
use event_relay.Auth.Authorized.{presented, Judged, Authorized, require_api_key-Judged}
use event_relay.Config.{Config, raw_api_key, is_production, is_missing, settings, load_config}

-- What the middleware reads of the settings and the environment.
abbrev pub key_config : (Text → Option Text) → Config → KeyConfig
key_config env c = record { api_key = c.api_key; production = is_production env }

missing-none :
    (env : Text → Option Text) (o : Option Text) → is_missing env o ≡ false → ¬ (o ≡ none)
missing-none env none h e = cc
missing-none env (some k) h e = cc

some_injective : {x y : Config} → ◌≡◌ {A = Option Config} (some x) (some y) → x ≡ y
some_injective e = cc

started :
    (env : Text → Option Text) (pid : ℕ) (c : Config)
    → is_production env ≡ true
    → load_config env pid ≡ some c
    → ¬ (or_null c.api_key ≡ none)
unfolding load_config settings
started env pid c p e absent = elim (Bool-cases (is_missing env (or_null (raw_api_key env)))) [
  | inl t ↦ (let stopped : ◌≡◌ {A = Option Config} none (some c) = rw (p, t) at e in cc)
  | inr t ↦
      let same : settings env pid ≡ c = some_injective (rw (p, t) at e) in
      missing-none env (or_null (raw_api_key env)) t
        (ap (λ (x : Config). or_null x.api_key) same ∙ absent)
]

passed :
    (bytes : Text → List ℕ) (config : KeyConfig) (req : Request) (g : Gate)
    (headers : List (Text × Text))
    → g ≡ next headers
    → Judged bytes config req g
    → Authorized bytes config req
passed bytes config req (next hs) headers e j = j.1
passed bytes config req (answered reply) headers e j = cc

-- A process that starts in production has a key, and lets a request through only if it presents a key
-- with the bytes of that key.
pub production_needs_key :
    (env : Text → Option Text) (pid : ℕ) (c : Config)
    → is_production env ≡ true
    → load_config env pid ≡ some c
    → (bytes : Text → List ℕ) (req : Request) (headers : List (Text × Text))
    → require_api_key bytes (key_config env c) req ≡ next headers
    → (key : Text) × (given : Text) × (or_null c.api_key ≡ some key)
      × (presented req ≡ some given)
      × (bytes given ≡ bytes key)
production_needs_key env pid c p e bytes req headers h =
    elim (passed bytes (key_config env c) req _ headers h
      (require_api_key-Judged bytes (key_config env c) req)) [
        | inl (absent, _) ↦ absurd (started env pid c p e absent)
        | inr a ↦ a
      ]
