-- ===== src/Config.antt =====
-- The settings that the gateway reads from its environment (gateway-go/internal/config/config.go).
-- The environment is a function; a variable that is not set yields `none`. Durations are in
-- nanoseconds. `parse_float` and `parse_duration` stand for strconv's and time's parsers.
pub mod Settings
mod Tests
use financial_ai_platform.Prelude.{
  ℕ, ◌+◌, ◌*◌, Bool, ◌&&◌, if◌then◌else◌, List, [], Option, none, some, Text, lit, text_eq,
  is_empty, Result, ok, err, ◌>>=◌, ◌>>◌, fail_if, ℤ, pos, wrap, times, atoi,
}

-- F is the type of floating-point numbers.
pub record Config (F : Type 0) : Type 0 where
  pub environment : Text
  pub http_host : Text
  pub http_port : ℤ
  pub metrics_host : Text
  pub metrics_port : ℤ
  pub log_level : Text
  pub shutdown_timeout : ℤ
  pub jwt_secret : Text
  pub jwt_ttl : ℤ
  pub admin_email : Text
  pub admin_password : Text
  pub ml_service_addr : Text
  pub storage_dir : Text
  pub max_upload_size_bytes : ℤ
  pub ingestion_workers : ℤ
  pub ingestion_queue_size : ℤ
  pub search_cache_ttl : ℤ
  pub rate_limit_rps : F
  pub rate_limit_burst : ℤ
  pub conversation_prune_interval : ℤ
  pub conversation_max_age : ℤ
  pub redis_addr : Text

abbrev pub insecure_default_jwt_secret : Text
insecure_default_jwt_secret = lit "dev-insecure-secret-change-me"

abbrev pub insecure_default_admin_password : Text
insecure_default_admin_password = lit "dev-insecure-admin-change-me"

abbrev pub default_admin_email : Text
default_admin_email = lit "admin@example.com"

-- A variable whose value does not parse, by its name, or a default that production refuses.
pub data ConfigError : Type 0 where
  bad_value : Text → ConfigError
  insecure_jwt_secret insecure_admin_password : ConfigError

abbrev pub Environment : Type 0
Environment = Text → Option Text

-- The value of a variable that is set, and not to the empty text.
abbrev pub named_value : Option Text → Option Text
named_value none = none
named_value (some v) = if is_empty v then none else some v

unfoldable pub get_env : Environment → Text → Text → Text
get_env env key fallback = elim (named_value (env key)) [ none ↦ fallback | some v ↦ v ]

-- getEnvInt, getEnvFloat and getEnvDuration differ in the parser.
abbrev pub parsed : {A : Type 0} → Text → Option A → Result ConfigError A
parsed key none = err (bad_value key)
parsed key (some v) = ok v

unfoldable pub get_env_parsed :
    {A : Type 0} → (Text → Option A) → Environment → Text → A → Result ConfigError A
get_env_parsed parse env key fallback = elim (named_value (env key)) [
  | none ↦ ok fallback
  | some v ↦ parsed key (parse v)
]

abbrev pub millisecond : ℕ
millisecond = 1000000

abbrev pub second : ℕ
second = 1000 * millisecond

abbrev pub minute : ℕ
minute = 60 * second

abbrev pub hour : ℕ
hour = 60 * minute

abbrev pub is_production : {F : Type 0} → Config F → Bool
is_production cfg = text_eq cfg.environment (lit "production")

-- Production starts with neither of the two defaults.
unfoldable pub check_production : {F : Type 0} → Config F → Result ConfigError (Config F)
check_production cfg = do
  fail_if (is_production cfg && text_eq cfg.jwt_secret insecure_default_jwt_secret)
      insecure_jwt_secret
  fail_if (is_production cfg && text_eq cfg.admin_password insecure_default_admin_password)
      insecure_admin_password
  ok cfg

-- `maxUploadMB << 20` on 64 bits.
unfoldable pub megabytes : ℤ → ℤ
megabytes mb = wrap 63 (times mb 1048576)

module _ {F : Type 0} (parse_float : Text → Option F) (parse_duration : Text → Option ℤ)
    (five : F) where
  unfoldable pub read : Environment → Result ConfigError (Config F)
  unfolding get_env get_env_parsed megabytes
  read env = do
    http_port ← get_env_parsed atoi env (lit "GATEWAY_HTTP_PORT") (pos 8080)
    metrics_port ← get_env_parsed atoi env (lit "GATEWAY_METRICS_PORT") (pos 9090)
    shutdown_timeout ←
        get_env_parsed parse_duration env (lit "GATEWAY_SHUTDOWN_TIMEOUT") (pos (10 * second))
    jwt_ttl ← get_env_parsed parse_duration env (lit "GATEWAY_JWT_TTL") (pos hour)
    max_upload_mb ← get_env_parsed atoi env (lit "GATEWAY_MAX_UPLOAD_SIZE_MB") (pos 25)
    workers ← get_env_parsed atoi env (lit "GATEWAY_INGESTION_WORKERS") (pos 4)
    queue_size ← get_env_parsed atoi env (lit "GATEWAY_INGESTION_QUEUE_SIZE") (pos 100)
    cache_ttl ←
        get_env_parsed parse_duration env (lit "GATEWAY_SEARCH_CACHE_TTL") (pos (30 * second))
    rps ← get_env_parsed parse_float env (lit "GATEWAY_RATE_LIMIT_RPS") five
    burst ← get_env_parsed atoi env (lit "GATEWAY_RATE_LIMIT_BURST") (pos 10)
    prune_interval ←
        get_env_parsed parse_duration env (lit "GATEWAY_CONVERSATION_PRUNE_INTERVAL")
          (pos (10 * minute))
    max_age ←
        get_env_parsed parse_duration env (lit "GATEWAY_CONVERSATION_MAX_AGE") (pos (24 * hour))
    ok (record {
      environment = get_env env (lit "GATEWAY_ENVIRONMENT") (lit "development");
      http_host = get_env env (lit "GATEWAY_HTTP_HOST") (lit "0.0.0.0");
      http_port = http_port;
      metrics_host = get_env env (lit "GATEWAY_METRICS_HOST") (lit "0.0.0.0");
      metrics_port = metrics_port;
      log_level = get_env env (lit "GATEWAY_LOG_LEVEL") (lit "info");
      shutdown_timeout = shutdown_timeout;
      jwt_secret = get_env env (lit "GATEWAY_JWT_SECRET") insecure_default_jwt_secret;
      jwt_ttl = jwt_ttl;
      admin_email = get_env env (lit "GATEWAY_ADMIN_EMAIL") default_admin_email;
      admin_password = get_env env (lit "GATEWAY_ADMIN_PASSWORD") insecure_default_admin_password;
      ml_service_addr = get_env env (lit "GATEWAY_ML_SERVICE_ADDR") (lit "localhost:50051");
      storage_dir = get_env env (lit "GATEWAY_STORAGE_DIR") (lit "./data/documents");
      max_upload_size_bytes = megabytes max_upload_mb;
      ingestion_workers = workers;
      ingestion_queue_size = queue_size;
      search_cache_ttl = cache_ttl;
      rate_limit_rps = rps;
      rate_limit_burst = burst;
      conversation_prune_interval = prune_interval;
      conversation_max_age = max_age;
      redis_addr = get_env env (lit "GATEWAY_REDIS_ADDR") (lit "");
    })

  unfoldable pub load : Environment → Result ConfigError (Config F)
  unfolding read check_production
  load env = read env >>= check_production
