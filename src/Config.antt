-- ===== src/Config.antt =====
-- backend/src/config/index.ts: the settings, from the variables of the environment.
pub mod Guarded
mod Tests
use event_relay.Base.{
  ℕ, Bool, true, false, not, ◌&&◌, if◌then◌else◌, Option, none, some, List, [], ◌∷◌, ◌++◌, Text,
  codes, text_eq, or_null,
}
use event_relay.Base.Trim.{trim}
use event_relay.Base.Decimal.{decimal, parse_int}

-- The numbers are what `parseInt` returns, `none` for NaN.
pub record Config : Type 0 where
  pub port : Option ℕ
  pub database_url : Text
  pub redis_url : Text
  pub api_key : Option Text
  pub cors_origin : Text
  pub ingestion_rate_limit_rps : Option ℕ
  pub rate_limiter_fail_closed : Bool
  pub stream_name : Text
  pub consumer_group : Text
  pub consumer_name : Text
  pub max_retries_default : Option ℕ
  pub circuit_threshold : Option ℕ
  pub circuit_cool_down_seconds : Option ℕ

-- `process.env.X || '…'`: the empty text is falsy.
abbrev pub or_text : Text → Option Text → Text
or_text default none = default
or_text default (some []) = default
or_text default (some (c ∷ s)) = c ∷ s

abbrev pub is_text : Text → Option Text → Bool
is_text expected none = false
is_text expected (some s) = text_eq s expected

abbrev pub credentials : Text → Text → Text
credentials user [] = user ++ codes "@"
credentials user (c ∷ pass) = user ++ (codes ":" ++ (c ∷ pass ++ codes "@"))

-- `process.env.EVENTRELAY_API_KEY ? ….trim() : null`.
abbrev pub trimmed : Option Text → Option Text
trimmed none = none
trimmed (some []) = none
trimmed (some (c ∷ key)) = some (trim (c ∷ key))

-- `env` is `process.env`.
module _ (env : Text → Option Text) where
  abbrev pub built_url : Text
  built_url =
      codes "postgres://"
      ++ (credentials (or_text (codes "eventrelay") (env (codes "PGUSER")))
            (or_text [] (env (codes "PGPASSWORD")))
          ++ (or_text (codes "localhost") (env (codes "PGHOST"))
              ++ (codes ":"
                  ++ (or_text (codes "5432") (env (codes "PGPORT"))
                      ++ (codes "/"
                          ++ or_text (codes "eventrelay_db") (env (codes "PGDATABASE")))))))

  unfoldable pub get_database_url : Text
  get_database_url = or_text built_url (env (codes "DATABASE_URL"))

  unfoldable pub raw_api_key : Option Text
  raw_api_key = trimmed (env (codes "EVENTRELAY_API_KEY"))

  abbrev pub is_production : Bool
  is_production = is_text (codes "production") (env (codes "NODE_ENV"))

  abbrev pub number : Text → Text → Option ℕ
  number name default = parse_int (or_text default (env name))

  unfoldable pub settings : ℕ → Config
  unfolding get_database_url raw_api_key
  settings pid = record {
    port = number (codes "PORT") (codes "4000");
    database_url = get_database_url;
    redis_url = or_text (codes "redis://localhost:6379") (env (codes "REDIS_URL"));
    api_key = raw_api_key;
    cors_origin = or_text (codes "*") (env (codes "CORS_ORIGIN"));
    ingestion_rate_limit_rps = number (codes "INGESTION_RATE_LIMIT_RPS") (codes "200");
    rate_limiter_fail_closed = is_text (codes "true") (env (codes "RATE_LIMITER_FAIL_CLOSED"));
    stream_name = or_text (codes "eventrelay:deliveries:stream") (env (codes "STREAM_NAME"));
    consumer_group = codes "eventrelay-workers-group";
    consumer_name = codes "worker-" ++ decimal pid;
    max_retries_default = number (codes "MAX_RETRIES") (codes "5");
    circuit_threshold = number (codes "CIRCUIT_THRESHOLD") (codes "5");
    circuit_cool_down_seconds = number (codes "CIRCUIT_COOLDOWN_SECONDS") (codes "30");
  }

  abbrev pub is_missing : Option Text → Bool
  is_missing none = true
  is_missing (some key) = false

  -- `none` is `process.exit(1)`: production without a key.
  unfoldable pub load_config : ℕ → Option Config
  unfolding settings raw_api_key
  load_config pid =
      if is_production && is_missing (or_null raw_api_key) then none else some (settings pid)
