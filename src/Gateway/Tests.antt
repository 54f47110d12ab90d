-- ===== src/Gateway/Tests.antt =====
-- A start in production.
use financial_ai_platform.Prelude.{
  ℕ, ◌≡◌, ◌≢◌, ◌⊎◌, refl, arith, Bool, true, false, not, ◌||◌, if◌then◌else◌, ◌↔◌, List, none, some,
  format_int, format, [], ◌∷◌, Text, lit, is_empty, text_eq, get, put, Dict, to_lower, trim_space,
  ok, ℤ, pos, atoi, wrap, times,
}
use financial_ai_platform.Auth.User.{User, role_admin}
use financial_ai_platform.Auth.Repository.{normalize_email, create, find_by_email}
use financial_ai_platform.Auth.Token.{Claims, claims_for, second, parse}
use financial_ai_platform.Auth.Service.{new_user, seed_admin, login}
use financial_ai_platform.Auth.Service.Admins.{admins, here}
use financial_ai_platform.Auth.Fixtures.{plain_bcrypt, spelled_jwt, draw_root, encode, sign, hour}
use financial_ai_platform.Config.{Config, Environment, load}
use financial_ai_platform.Ingestion.Service.{started_service}
use financial_ai_platform.Conversation.{new_memory_store}
use financial_ai_platform.Cache.{new_memory_cache}
use financial_ai_platform.MlClient.Unary.{serving}
use financial_ai_platform.Gateway.{Outside, Gateway, in_process, auth_service, ml_readiness, start}
use financial_ai_platform.Gateway.Startup.{IsSafe, start-login}
use financial_ai_platform.Worker.{Pool, new_pool, start as start_pool, submit, close}
use financial_ai_platform.Worker.Steps as Worker
use financial_ai_platform.HttpServer.Listeners.{Net, new_server, listen, serve, shutdown, joined}
use financial_ai_platform.Gateway.Main.{Course, waiting, main}
use financial_ai_platform.Gateway.Main.Exit.{RunsWell, main-RunsWell}
use financial_ai_platform.Gateway.Main.Ending.{Ending}
use financial_ai_platform.Scheduler
use financial_ai_platform.Gateway.Shutdown.{
  stopped, Process, launched, accepts, submits, answers, shuts_down, returns, stops, works, Run,
  here as at_start, next,
}
use financial_ai_platform.Gateway.Shutdown.Order.{IsDrained, Run-IsDrained}

abbrev outside : Outside ℤ
outside = record {
  parse_float = λ t. none;
  parse_duration = λ t. none;
  five = pos 5;
  bcrypt = plain_bcrypt;
  jwt = spelled_jwt;
  parse_address = λ e. not (is_empty e);
  opens_store = λ dir. true;
  opens_client = λ addr. true;
  ml_status = λ now. ok serving;
}

abbrev values : Dict Text
values =
    (lit "GATEWAY_ENVIRONMENT", lit "production")
    ∷ (lit "GATEWAY_JWT_SECRET", lit "k1")
    ∷ (lit "GATEWAY_ADMIN_PASSWORD", lit "battery staple")
    ∷ []

abbrev environment : Environment
environment = get values

abbrev config : Config ℤ
config = record {
  environment = lit "production";
  http_host = lit "0.0.0.0";
  http_port = pos 8080;
  metrics_host = lit "0.0.0.0";
  metrics_port = pos 9090;
  log_level = lit "info";
  shutdown_timeout = pos 10000000000;
  jwt_secret = lit "k1";
  jwt_ttl = pos 3600000000000;
  admin_email = lit "admin@example.com";
  admin_password = lit "battery staple";
  ml_service_addr = lit "localhost:50051";
  storage_dir = lit "./data/documents";
  max_upload_size_bytes = pos 26214400;
  ingestion_workers = pos 4;
  ingestion_queue_size = pos 100;
  search_cache_ttl = pos 30000000000;
  rate_limit_rps = pos 5;
  rate_limit_burst = pos 10;
  conversation_prune_interval = pos 600000000000;
  conversation_max_age = pos 86400000000000;
  redis_addr = lit "";
}

abbrev admin : User
admin = new_user draw_root (lit "admin@example.com") (3 ∷ lit "battery staple") role_admin

abbrev gateway : Gateway ℤ
gateway = record {
  config = config;
  accounts = record {
    by_id = (lit "u0", admin) ∷ [];
    by_eml = (lit "admin@example.com", lit "u0") ∷ [];
  };
  uploads = started_service 4 100;
  memory = in_process new_memory_store new_memory_cache;
  readiness = ml_readiness outside;
}

gateway_started : start outside environment draw_root ≡ ok gateway
unfolding start load get put text_eq atoi wrap times seed_admin create find_by_email normalize_email
    to_lower trim_space
gateway_started = refl

admin_token : Text
admin_token =
    encode (claims_for spelled_jwt (auth_service outside config).tokens 0 admin) (lit "k1")

start-login_example :
    (login
        (auth_service outside config)
        gateway.accounts
        0
        (lit "admin@example.com")
        (lit "battery staple")
      ≡ ok (admin_token, hour))
    × ((c : Claims) × (parse spelled_jwt (auth_service outside config).tokens second admin_token
          ≡ ok c)
        × (c.user_id ≡ lit "u0")
        × (c.role ≡ role_admin))
    × IsSafe config
    × (admins (auth_service outside config) gateway.accounts ≡ 1)
unfolding admin_token sign claims_for
start-login_example =
    start-login outside environment draw_root gateway gateway_started 0 second admin_token
      gateway.accounts refl (omega arith) here

-- A process of one worker: an upload submits the job 7, the servers shut down, and the worker ends.
abbrev process : Process ℕ
process = launched 1 1

abbrev queued : Pool ℕ
queued = record process.pool { queue = 7 ∷ []; accepted = 7 ∷ [] }

abbrev started : Pool ℕ
started = record queued { queue = []; closed = true; polling = 0; busy = 7 ∷ []; started = 7 ∷ [] }

abbrev worked : Pool ℕ
worked = record started { busy = []; polling = 1; finished = 7 ∷ [] }

abbrev ended : Process ℕ
ended = record {
  phase = stopped;
  in_flight = 0;
  pool = record worked { polling = 0; exited = 1 };
  panics = 0;
}

to_ended : Run process ended
unfolding new_pool start_pool submit close
to_ended =
    let served : Run process (record process { pool = queued }) =
      next (next (next at_start (accepts refl)) (submits 0 7 refl)) (answers 0 refl) in
    let closed = next (next (next served (shuts_down refl)) (returns refl refl)) (stops refl) in
    next
      (next (next closed (works (Worker.take 7 [] 0 refl refl) refl refl refl))
        (works (Worker.finish [] 7 [] refl) refl refl refl))
      (works (Worker.exit_closed 0 refl refl refl) refl refl refl)

Run-IsDrained_example : (ended.panics ≡ 0) × ((ended.pool.exited ≢ 1) ⊎ IsDrained 1 1 ended)
Run-IsDrained_example = Run-IsDrained 1 1 to_ended (omega arith)

-- A network that binds an address once.
taken : Text → List Text → Bool
taken address [] = false
taken address (a ∷ sockets) = text_eq address a || taken address sockets

abbrev net : Net
net = record {
  Sockets = List Text;
  Listener = Text;
  listen = λ sockets address.
      if taken address sockets then (sockets, none) else (address ∷ sockets, some address);
  addr = λ l. l;
}

-- A signal ends the wait, and the pool drains.
abbrev course : Course
course = record {
  pruner_at = some waiting;
  before_signal = [];
  http_end = none;
  metrics_end = none;
  pool_drains = true;
}

ends_well : (main outside net environment draw_root [] course).status ≡ 0
unfolding main Scheduler.run Scheduler.loop listen new_server serve shutdown joined taken start load
    get put text_eq atoi wrap times seed_admin create find_by_email normalize_email to_lower
    trim_space format_int format
ends_well = refl

-- The port of the metrics is in use: the process ends with the status 1.
metrics_port_in_use :
    (main outside net environment draw_root (lit "0.0.0.0:9090" ∷ []) course).status ≡ 1
unfolding main Scheduler.run Scheduler.loop listen new_server serve shutdown joined taken start load
    get put text_eq atoi wrap times seed_admin create find_by_email normalize_email to_lower
    trim_space format_int format
metrics_port_in_use = refl

-- With the interval "0s", the process panics when the goroutine of the scheduler runs.
abbrev zero_interval : Environment
zero_interval = get ((lit "GATEWAY_CONVERSATION_PRUNE_INTERVAL", lit "0s") ∷ values)

without_interval :
    (main
      (record outside { parse_duration = λ t. some (pos 0) })
      net
      zero_interval
      draw_root
      []
      course).status
    ≡ 2
unfolding main Scheduler.run Scheduler.loop listen new_server serve shutdown joined taken start load
    get put text_eq atoi wrap times seed_admin create find_by_email normalize_email to_lower
    trim_space format_int format
without_interval = refl

main-RunsWell_example :
    (((main outside net environment draw_root [] course).status ≡ 0)
      ↔ RunsWell outside net environment draw_root [] course)
    × Ending (main outside net environment draw_root [] course)
main-RunsWell_example = main-RunsWell outside net environment draw_root [] course
