-- ===== src/Config/Tests.antt =====
-- backend/src/config/index.ts in production, with a key and without.
use event_relay.Base.{
  ◌≡◌, refl, if◌then◌else◌, Option, some, none, [], Text, codes, text_eq, or_null,
}
use event_relay.Base.Trim.{trim}
use event_relay.Sample.{sample_bytes}
use event_relay.Http.{Request}
use event_relay.Auth.{require_api_key}
use event_relay.Auth.Authorized.{presented}
use event_relay.Config.{load_config, settings, get_database_url, raw_api_key}
use event_relay.Config.Guarded.{production_needs_key}

-- An environment in production, with this key.
abbrev env : Text → Text → Option Text
env key name =
    if text_eq name (codes "NODE_ENV")
    then some (codes "production")
    else (if text_eq name (codes "EVENTRELAY_API_KEY") then some key else none)

blank_key : load_config (env (codes "  ")) 7 ≡ none
unfolding load_config raw_api_key trim
blank_key = refl

default_url : get_database_url (env []) ≡ codes "postgres://eventrelay@localhost:5432/eventrelay_db"
unfolding get_database_url
default_url = refl

abbrev sample_request : Request
sample_request = record {
  header = λ h. if text_eq h (codes "X-API-Key") then some (codes " k-123") else none;
  query = λ q. none;
  ip = none;
}

key_in_production :
    (key : Text) × (given : Text) × (or_null (settings (env (codes "k-123 ")) 7).api_key ≡ some key)
    × (presented sample_request ≡ some given)
    × (sample_bytes given ≡ sample_bytes key)
unfolding load_config require_api_key settings raw_api_key trim
key_in_production =
    production_needs_key (env (codes "k-123 ")) 7 (settings (env (codes "k-123 ")) 7) refl refl
      sample_bytes sample_request [] refl
