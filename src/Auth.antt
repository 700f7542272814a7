-- ===== src/Auth.antt =====
-- backend/src/middleware/auth.ts: `requireApiKey`. `bytes` is `Buffer.from`.
pub mod Authorized
mod Tests
use event_relay.Base.{
  ℕ, Bool, true, false, not, ◌&&◌, ◌||◌, ◌==◌, if◌then◌else◌, Option, none, some, List, [], ◌∷◌,
  Text, codes, text_eq, starts_with, drop, length, or_null,
}
use event_relay.Base.Trim.{trim}
use event_relay.Http.{Request, Reply, Gate, next, answered}

-- `config.apiKey`, and whether NODE_ENV is `production`.
pub record KeyConfig : Type 0 where
  pub api_key : Option Text
  pub production : Bool

abbrev pub refusal : ℕ → Text → Gate
refusal status error = answered (record { status = status; headers = []; error = error })

-- The key of an `Authorization` header, if it is a bearer token.
abbrev pub bearer_key : Option Text → Option Text
bearer_key none = none
bearer_key (some auth) =
    if starts_with (codes "Bearer ") auth then some (trim (drop 7 auth)) else none

-- An X-API-Key header that is not empty comes before the bearer token.
unfoldable pub provided_key : Option Text → Option Text → Option Text
provided_key none auth = bearer_key auth
provided_key (some []) auth = bearer_key auth
provided_key (some (c ∷ key)) auth = some (trim (c ∷ key))

module _ (bytes : Text → List ℕ) where
  -- `timingSafeEqual` is reached with buffers of one length only.
  abbrev pub differs : Text → Text → Bool
  differs expected provided =
      not (length (bytes expected) == length (bytes provided))
      || not (text_eq (bytes expected) (bytes provided))

  abbrev pub compare_key : Text → Option Text → Gate
  compare_key expected none =
      refusal 401 (codes "Unauthorized. Missing required API key via X-API-Key or Bearer token.")
  compare_key expected (some provided) =
      if differs expected provided
      then refusal 403 (codes "Forbidden. Invalid API key provided.")
      else next []

  abbrev pub with_key : Bool → Option Text → Request → Gate
  with_key production none req =
      if production
      then refusal 500
          (codes "Server misconfiguration: EVENTRELAY_API_KEY is not configured in production.")
      else next []
  with_key production (some key) req =
      compare_key key (
        or_null
          (provided_key (req.header (codes "X-API-Key")) (req.header (codes "Authorization"))))

  -- The empty key counts as none.
  unfoldable pub require_api_key : KeyConfig → Request → Gate
  unfolding provided_key
  require_api_key config req = with_key config.production (or_null config.api_key) req
