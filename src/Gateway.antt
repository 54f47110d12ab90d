-- ===== src/Gateway.antt =====
-- How the gateway is put together at its start, gateway-go/cmd/gateway/main.go, up to the listeners: the
-- configuration, the accounts with the seeded admin, the uploads, and the conversations and the cache.
pub mod Startup
pub mod Shutdown
pub mod Main
mod Tests
use financial_ai_platform.Prelude.{
  ℕ, Bool, true, false, not, ◌||◌, if◌then◌else◌, Option, Text, lit, is_empty, Result, ok, err,
  ◌>>=◌, ◌>>◌, fail_if, ℤ, pos, negsuc,
}
use financial_ai_platform.Auth.User.{AuthError}
use financial_ai_platform.Auth.Repository.{MemoryUserRepository, new_memory_user_repository}
use financial_ai_platform.Auth.Repository.Contract.{memory_user_repository}
use financial_ai_platform.Auth.Password.{Bcrypt}
use financial_ai_platform.Auth.Token.{Jwt}
use financial_ai_platform.Auth.Service.{Service, Draw, seed_admin}
use financial_ai_platform.Config.{Config, ConfigError, Environment, load}
use financial_ai_platform.Ingestion.Service as Ingestion
use financial_ai_platform.Conversation.{MemoryStore, new_memory_store}
use financial_ai_platform.Health.{Readiness, new_readiness, register}
use financial_ai_platform.MlClient.Unary.{Failure, ServingStatus, health_check}
use financial_ai_platform.Cache.{MemoryCache, new_memory_cache}

-- What the gateway is linked with: the parsers of the configuration with its constant 5.0, the libraries
-- of the accounts, whether the object store and the client of the ML service can be
-- made, and what the latter's health service answers at a time.
pub record Outside (F : Type 0) : Type 0 where
  pub parse_float : Text → Option F
  pub parse_duration : Text → Option ℤ
  pub five : F
  pub bcrypt : Bcrypt
  pub jwt : Jwt
  pub parse_address : Text → Bool
  pub opens_store : Text → Bool
  pub opens_client : Text → Bool
  pub ml_status : ℕ → Result Failure ServingStatus

-- Why the process exits.
pub data StartError : Type 0 where
  config_failed : ConfigError → StartError
  seed_failed : AuthError → StartError
  storage_failed client_failed : StartError
  queue_panic : StartError

-- The conversations and the cache: both in the process, or both in the Redis at an address.
pub data Memory : Type 0 where
  in_process : MemoryStore → MemoryCache → Memory
  in_redis : Text → Memory

pub record Gateway (F : Type 0) : Type 0 where
  pub config : Config F
  pub accounts : MemoryUserRepository
  pub uploads : Ingestion.Service
  pub memory : Memory
  pub readiness : Readiness ℕ

-- A loop up to a negative number makes no worker, and a token with a negative time to live has expired
-- when it is issued, as with none.
abbrev pub natural : ℤ → ℕ
natural (pos n) = n
natural (negsuc n) = 0

abbrev pub is_negative : ℤ → Bool
is_negative (pos n) = false
is_negative (negsuc n) = true

abbrev pub exit_with : {E A : Type 0} → (E → StartError) → Result E A → Result StartError A
exit_with f (ok a) = ok a
exit_with f (err e) = err (f e)

abbrev pub choose_memory : Text → Memory
choose_memory redis_addr =
    if is_empty redis_addr
    then in_process new_memory_store new_memory_cache
    else in_redis redis_addr

module _ {F : Type 0} (o : Outside F) where
  abbrev pub auth_service : Config F → Service
  auth_service cfg = record {
    repo = memory_user_repository;
    tokens = record { secret = cfg.jwt_secret; ttl = natural cfg.jwt_ttl };
    bcrypt = o.bcrypt;
    jwt = o.jwt;
    parse_address = o.parse_address;
  }

  -- The only check, made at a time.
  abbrev pub ml_readiness : Readiness ℕ
  ml_readiness =
      register new_readiness (lit "ml-service") (λ (now : ℕ). health_check (o.ml_status now))

  -- The rest of the wiring, with an early exit at each part that cannot be made.
  unfoldable pub assemble : Config F → MemoryUserRepository → Result StartError (Gateway F)
  assemble cfg accounts = do
    fail_if (not (o.opens_store cfg.storage_dir)) storage_failed
    fail_if (not (o.opens_client cfg.ml_service_addr)) client_failed
    fail_if (is_negative cfg.ingestion_queue_size) queue_panic
    ok (record {
      config = cfg;
      accounts = accounts;
      uploads =
          Ingestion.started_service (natural cfg.ingestion_workers)
            (natural cfg.ingestion_queue_size);
      memory = choose_memory cfg.redis_addr;
      readiness = ml_readiness;
    })

  unfoldable pub start : Environment → Draw → Result StartError (Gateway F)
  unfolding assemble
  start env d = do
    cfg ← exit_with config_failed (load o.parse_float o.parse_duration o.five env)
    accounts ← exit_with seed_failed (
        seed_admin (auth_service cfg) new_memory_user_repository d cfg.admin_email
          cfg.admin_password)
    assemble cfg accounts
