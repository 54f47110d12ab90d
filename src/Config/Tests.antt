-- ===== src/Config/Tests.antt =====
-- Concrete environments.
use financial_ai_platform.Prelude.{
  ◌-◌, ◌^◌, ◌≡◌, refl, Option, none, Text, lit, text_eq, get, Dict, [], ◌∷◌, ok, ℤ, pos, negsuc,
  atoi, wrap, times,
}
use financial_ai_platform.Config.{Config, Environment, load, megabytes}

-- Durations and fractions are not set in these environments.
abbrev unread : Text → Option ℤ
unread text = none

abbrev production_values : Dict Text
production_values =
    (lit "GATEWAY_ENVIRONMENT", lit "production")
    ∷ (lit "GATEWAY_JWT_SECRET", lit "s3")
    ∷ (lit "GATEWAY_ADMIN_PASSWORD", lit "pw")
    ∷ (lit "GATEWAY_HTTP_PORT", lit "-1")
    ∷ []

abbrev production : Environment
production = get production_values

-- Nothing is set, and everything is set to the empty text.
abbrev empty : Environment
empty key = none

abbrev settings : Config ℤ
settings = record {
  environment = lit "production";
  http_host = lit "0.0.0.0";
  http_port = negsuc 0;
  metrics_host = lit "0.0.0.0";
  metrics_port = pos 9090;
  log_level = lit "info";
  shutdown_timeout = pos 10000000000;
  jwt_secret = lit "s3";
  jwt_ttl = pos 3600000000000;
  admin_email = lit "admin@example.com";
  admin_password = lit "pw";
  ml_service_addr = lit "localhost:50051";
  storage_dir = lit "./data/documents";
  max_upload_size_bytes = pos 26214400;
  ingestion_workers = pos 4;
  ingestion_queue_size = pos 100;
  search_cache_ttl = pos 30000000000;
  rate_limit_rps = pos 5;
  rate_limit_burst = pos 10;
  conversation_prune_interval = pos 600000000000;
  conversation_max_age = pos 86400000000000;
  redis_addr = lit "";
}

settings_loaded : load unread unread (pos 5) production ≡ ok settings
unfolding load get text_eq atoi wrap times
settings_loaded = refl

-- From 2 ^ 43 megabytes on the limit wraps around.
megabytes_wrapped : megabytes (pos (2 ^ 43)) ≡ negsuc (2 ^ 63 - 1)
unfolding megabytes wrap times
megabytes_wrapped = refl
