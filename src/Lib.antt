-- ===== src/Lib.antt =====
-- The gateway of the financial AI platform (gateway-go/): accounts and tokens, document ingestion
-- with its worker pool, searches and questions over the ML service, and what its components promise.
--
-- Gateway (gateway-go/cmd/gateway): how a start puts the parts together, and in Gateway.Shutdown the order
-- in which the process ends, as a step relation over requests in flight and the worker pool.
-- Gateway.Main is the whole of main, with the status of the process.
-- HttpServer (gateway-go/internal/httpserver, internal/middleware and internal/metrics): each route with the
-- chain of its guards; HttpServer.Engine the middleware that every request passes, with its log lines and
-- samples, and HttpServer.Listeners the two listeners. RateLimit (gateway-go/internal/ratelimit) has the
-- first guard, Auth.Middleware the others. Logging (gateway-go/internal/logging) has the level of the log.
-- Auth (gateway-go/internal/auth): Auth.User has accounts, roles and errors; Auth.Repository the
-- in-memory repository and, as the record `UserRepository`, the interface with the contract that
-- Auth.Service relies on; Auth.Password hashing; Auth.Token issue and validation of tokens;
-- Auth.Middleware the guards of the routes. Auth.Repository.Contract shows that the in-memory
-- repository meets the contract.
-- Worker (gateway-go/internal/worker): the bounded pool as a record, `Submit` as a function, and the
-- goroutines, closing and cancellation as the step relation Worker.Steps.Step.
-- Ingestion (gateway-go/internal/ingestion): Ingestion.DocType, Ingestion.Records, the repositories
-- Ingestion.Documents and Ingestion.Jobs, Ingestion.Service with `Upload`, which submits to the
-- pool, Ingestion.Process with what a worker does with a job, and Ingestion.System with both at once, as
-- a step relation; Ingestion.Flights has uploads at the same time, each of whose calls of a repository, of the
-- object store and of the pool is a step.
-- Storage (gateway-go/internal/storage): the paths and the file URIs of the stored objects, `Put`, and the
-- reader of ml-service/app/storage.py that opens these URIs, with the decoding of UTF-8 in Storage.Utf8.
-- Scheduler (gateway-go/internal/scheduler): the loop over the ticks, with the pruning that main gives to it.
-- Conversation (gateway-go/internal/conversation): the store of sessions in memory, with its two
-- metrics, and the transcript that it stands for; Conversation.Contract the interface `Store` with what
-- the questions rely on; Conversation.Redis the store in Redis.
-- Cache (gateway-go/internal/cache): the cache in memory with its lazy expiry; Cache.Contract the
-- interface `Cache` with what the searches rely on; Cache.Redis the cache in Redis.
-- Config (gateway-go/internal/config): the settings read from the environment.
-- Health (gateway-go/internal/health): the named checks and the answer of /readyz.
-- MlClient (gateway-go/internal/mlclient): the stream that ChunkAndEmbed drains, the goroutine that
-- relays an answer as the step relation MlClient.Relay.Step, the unary calls, and the interceptors that
-- count the calls.
-- Handlers (gateway-go/internal/handlers): Handlers.Accounts for auth.go, Handlers.Documents for
-- documents.go and Handlers.Admins for admin.go call Auth.Service and Ingestion.Service and turn their
-- results into replies with a status; Handlers.Search for search.go works over a cache and a searcher;
-- Handlers.Rag for rag.go over a store of conversations and the events that MlClient relays.
-- LoadTest (tests/load): the load test of the gateway, its workers as a step relation, and its percentiles.
-- Prelude: shared names, lists over the native numbers, texts, maps, results, decimals and
-- the signed integers with Atoi.
--
-- Conventions. A Go string is the list of its bytes; strings.ToLower and TrimSpace are those of ASCII
-- text. A Go map is an association list (Prelude.Maps). A method returns the new state; an error is
-- `err` of a result, and a state that an error leaves changed is returned beside it. Times and
-- durations are natural numbers of nanoseconds, and of milliseconds for a cache in Redis; `time.Now()`, `uuid.NewString()` and bcrypt's salt
-- are arguments. Each repository call is one step, as its mutex makes it; a search and a question
-- are modelled as run from one state without another call between, and so is an upload but for
-- Ingestion.Service.Race and Ingestion.Flights. Of the process's shutdown, the steps are those of Gateway.Shutdown; a job is
-- processed from one state in Ingestion.Process, and write by write in Ingestion.System.
-- Parameters, with what is relied on stated in their records: bcrypt (Auth.Password.Bcrypt), the JWT
-- library (Auth.Token.Jwt), net/mail's ParseAddress, the decoders of JSON
-- and of multipart forms, json.Marshal, the verb %q of fmt, the parsers of floats and durations, SHA-256,
-- the file system's answers, gin's response writer (HttpServer.Engine.ResponseWriter), the
-- network (HttpServer.Listeners.Net), the token bucket (RateLimit.TokenBucket), Redis (Cache.Redis, and with
-- the JSON of a turn Conversation.Redis), gRPC and the ML service.
-- No definition runs on fuel but for the digits of Prelude.Decimals, for which the number itself is
-- enough: the loops are over lists, and the worker loop, the relay, the shutdown, the
-- scheduler beside the appends, and the uploads beside the workers are relations.
--
-- Not modelled: gin's router, net/http and the network below them, the signals of the process but as the end of
-- its wait, the histogram's buckets and the other metrics but for the counts named above, log lines but for
-- those of HttpServer.Engine and the last one of Gateway.Main, the constant answer of /healthz, the Python
-- service but for its reader of URIs, and deployment.
pub mod Auth
pub mod Cache
pub mod Config
pub mod Conversation
pub mod Gateway
pub mod Handlers
pub mod Health
pub mod HttpServer
pub mod Ingestion
pub mod LoadTest
pub mod Logging
pub mod MlClient
pub mod Prelude
pub mod RateLimit
pub mod Scheduler
pub mod Storage
pub mod Worker
