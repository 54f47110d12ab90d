-- ===== src/HttpServer/Engine.antt =====
-- The middleware that every request passes, gateway-go/internal/httpserver/server.go (New),
-- gateway-go/internal/middleware/{recovery,request_id,logging}.go and gateway-go/internal/metrics/metrics.go.
-- gin's response writer and its router are parameters: a call comes with the endpoint that it was routed to.
pub mod Labels
pub mod Records
pub mod Guarded
mod Tests
use financial_ai_platform.Prelude.{
  ℕ, ◌-◌, ◌/◌, Bool, false, List, [], ◌∷◌, ◌++◌, ◌≡◌, Option, none, some, Text, lit, is_empty,
  if◌then◌else◌, format,
}
use financial_ai_platform.HttpServer.{
  Endpoint, healthz, readyz, register, login, me, upload_document, get_document, summarize, search,
  rag_query, admin_ping, admin_evaluate, admin_users, admin_documents, admin_jobs, admin_stats,
  Request, request_id,
}

-- The groups of the routes.
abbrev v1_group : Text
v1_group = lit "/api/v1"

abbrev auth_group : Text
auth_group = v1_group ++ lit "/auth"

abbrev documents_group : Text
documents_group = v1_group ++ lit "/documents"

abbrev admin_group : Text
admin_group = v1_group ++ lit "/admin"

-- The path that a handler is registered with.
unfoldable pub pattern : Endpoint → Text
pattern healthz = lit "/healthz"
pattern readyz = lit "/readyz"
pattern register = auth_group ++ lit "/register"
pattern login = auth_group ++ lit "/login"
pattern me = v1_group ++ lit "/me"
pattern upload_document = documents_group ++ lit ""
pattern get_document = documents_group ++ lit "/:id"
pattern summarize = documents_group ++ lit "/:id/summary"
pattern search = v1_group ++ lit "/search"
pattern rag_query = v1_group ++ lit "/rag/query"
pattern admin_ping = admin_group ++ lit "/ping"
pattern admin_evaluate = admin_group ++ lit "/evaluate"
pattern admin_users = admin_group ++ lit "/users"
pattern admin_documents = admin_group ++ lit "/documents"
pattern admin_jobs = admin_group ++ lit "/jobs"
pattern admin_stats = admin_group ++ lit "/stats"

abbrev pub request_id_header : Text
request_id_header = lit "X-Request-ID"

-- gin's ResponseWriter, with `AbortWithStatusJSON` of an error's message. The status of a response can be
-- set until it has been written, and a header that was set can be read.
pub record ResponseWriter : Type 1 where
  pub Writer : Type 0
  pub status : Writer → ℕ
  pub is_written : Writer → Bool
  pub header : Writer → Text → Text
  pub set_header : Writer → Text → Text → Writer
  pub abort_with_error : Writer → ℕ → Text → Writer
  pub header-set_header :
      (w : Writer) (name value : Text) → header (set_header w name value) name ≡ value
  pub status-abort :
      (w : Writer) (code : ℕ) (message : Text)
      → is_written w ≡ false
      → status (abort_with_error w code message) ≡ code
  pub request_id-abort :
      (w : Writer) (code : ℕ) (message : Text)
      → header (abort_with_error w code message) request_id_header ≡ header w request_id_header

-- A request that the router has sent to an endpoint, or to none.
pub record Call : Type 0 where
  pub method : Text
  pub path : Text
  pub query : Text
  pub endpoint : Option Endpoint
  pub request : Request

-- c.FullPath()
unfoldable pub full_path : Call → Text
unfolding pattern
full_path call = elim call.endpoint [ none ↦ [] | some e ↦ pattern e ]

-- The lines that these functions log; the error list of gin, which no handler fills, is left out.
pub data Entry : Type 0 where
  panic_recovered : (panic path method : Text) → Entry
  http_request :
      (method path route query : Text)
      → (status latency_ms : ℕ) → (client_ip request_id : Text) → Entry

-- One increment of the counter and one observation of the histogram, in nanoseconds.
pub record Sample : Type 0 where
  pub method : Text
  pub route : Text
  pub status : Text
  pub duration : ℕ

-- What a handler does to the response, given the request's id.
pub data Handled (W : Type 0) : Type 0 where
  returns : W → Handled W
  panics : W → Text → Handled W

-- `uuid.NewString()`, and the readings of the clock in Logging and in the metrics' middleware.
pub record Draw : Type 0 where
  pub minted : Text
  pub logging_start : ℕ
  pub metrics_start : ℕ
  pub metrics_end : ℕ
  pub logging_end : ℕ

module _ (g : ResponseWriter) where
  -- A request under way, with the log and the metrics of the process.
  pub record Exchange : Type 0 where
    pub writer : g.Writer
    pub id : Text
    pub entries : List Entry
    pub samples : List Sample

  -- How the rest of a chain ended.
  pub data Ended : Type 0 where
    returned : Exchange → Ended
    panicking : Exchange → Text → Ended

  abbrev pub Handler : Type 0
  Handler = Text → g.Writer → Handled g.Writer

  -- The code behind `c.Next()`, which a panic skips.
  abbrev pub afterwards : (Exchange → Exchange) → Ended → Ended
  afterwards f (returned x) = returned (f x)
  afterwards f (panicking x panic) = panicking x panic

  unfoldable pub recovery : Call → (Exchange → Ended) → Exchange → Exchange
  recovery call next x = elim (next x) [
    | returned y ↦ y
    | panicking y panic ↦ record y {
      entries = y.entries ++ panic_recovered panic call.path call.method ∷ [];
      writer = g.abort_with_error y.writer 500 (lit "internal server error");
    }
  ]

  unfoldable pub stamp_request_id : Text → Call → (Exchange → Ended) → Exchange → Ended
  stamp_request_id minted call next x =
      let id = request_id minted call.request in
      next (record x { writer = g.set_header x.writer request_id_header id; id = id })

  abbrev pub request_entry : Draw → Call → ℕ → Text → Entry
  request_entry d call status id =
      let route = if is_empty (full_path call) then call.path else full_path call in
      http_request call.method call.path route call.query status
        ((d.logging_end - d.logging_start) / 1000000) call.request.client_ip id

  unfoldable pub logging : Draw → Call → (Exchange → Ended) → Exchange → Ended
  logging d call next x =
      afterwards
        (λ y. record y {
          entries = y.entries ++ request_entry d call (g.status y.writer) y.id ∷ [];
        })
        (next x)

  -- An unmatched path is not a label.
  abbrev pub request_sample : Draw → Call → ℕ → Sample
  request_sample d call status = record {
    method = call.method;
    route = if is_empty (full_path call) then lit "unmatched" else full_path call;
    status = format status;
    duration = d.metrics_end - d.metrics_start;
  }

  unfoldable pub metrics : Draw → Call → (Exchange → Ended) → Exchange → Ended
  metrics d call next x =
      afterwards
        (λ y. record y { samples = y.samples ++ request_sample d call (g.status y.writer) ∷ [] })
        (next x)

  -- The end of the chain.
  unfoldable pub run_handler : Handler → Exchange → Ended
  run_handler h x = elim (h x.id x.writer) [
    | returns w ↦ returned (record x { writer = w })
    | panics w panic ↦ panicking (record x { writer = w }) panic
  ]

  -- The chain that New gives to the engine, before a handler.
  unfoldable pub serve_http : Draw → Call → Handler → Exchange → Exchange
  unfolding recovery stamp_request_id logging metrics run_handler
  serve_http d call h =
      recovery call
        (stamp_request_id d.minted call (logging d call (metrics d call (run_handler h))))
