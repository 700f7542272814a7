-- ===== src/Auth/Tests.antt =====
-- backend/src/middleware/auth.ts on requests with and without keys.
use event_relay.Base.{◌≡◌, refl, true, if◌then◌else◌, some, none, [], Text, codes, text_eq}
use event_relay.Base.Trim.{trim}
use event_relay.Http.{Request, next}
use event_relay.Sample.{sample_bytes}
use event_relay.Auth.{KeyConfig, require_api_key, refusal}
use event_relay.Auth.Authorized.{Judged, require_api_key-Judged}

abbrev config : KeyConfig
config = record { api_key = some (codes "k-123"); production = true }

-- A request with one header.
abbrev with_header : Text → Text → Request
with_header name value = record {
  header = λ h. if text_eq h name then some value else none;
  query = λ q. none;
  ip = some (codes "203.0.113.9");
}

bearer_passes :
    require_api_key sample_bytes config
      (with_header (codes "Authorization") (codes "Bearer  k-123 "))
    ≡ next []
unfolding require_api_key trim
bearer_passes = refl

other_scheme :
    require_api_key sample_bytes config (with_header (codes "Authorization") (codes "Basic k-123"))
    ≡ refusal 401 (codes "Unauthorized. Missing required API key via X-API-Key or Bearer token.")
unfolding require_api_key trim
other_scheme = refl

require_api_key-Judged_example :
    Judged sample_bytes config
      (with_header (codes "X-API-Key") (codes "k-124"))
      (require_api_key sample_bytes config (with_header (codes "X-API-Key") (codes "k-124")))
require_api_key-Judged_example =
    require_api_key-Judged sample_bytes config (with_header (codes "X-API-Key") (codes "k-124"))
