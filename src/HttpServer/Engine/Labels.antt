-- ===== src/HttpServer/Engine/Labels.antt =====
-- The paths of the routes as a client writes them, and the line and the labels of a request
-- (gateway-go/internal/httpserver/routes.go, gateway-go/internal/middleware/logging.go and
-- gateway-go/internal/metrics/metrics.go).
use financial_ai_platform.Prelude.{
  ℕ, ◌-◌, ◌/◌, ◌≡◌, refl, ap, arith, inl, inr, Option-cases, none, some, Text, lit, is_empty,
  if◌then◌else◌, format,
}
use financial_ai_platform.HttpServer.{
  Endpoint, healthz, readyz, register, login, me, upload_document, get_document, summarize, search,
  rag_query, admin_ping, admin_evaluate, admin_users, admin_documents, admin_jobs, admin_stats,
}
use financial_ai_platform.HttpServer.Engine.{
  pattern, full_path, ResponseWriter, Call, Entry, http_request, Sample, Draw, request_entry,
  request_sample,
}

abbrev pub route_path : Endpoint → Text
route_path healthz = lit "/healthz"
route_path readyz = lit "/readyz"
route_path register = lit "/api/v1/auth/register"
route_path login = lit "/api/v1/auth/login"
route_path me = lit "/api/v1/me"
route_path upload_document = lit "/api/v1/documents"
route_path get_document = lit "/api/v1/documents/:id"
route_path summarize = lit "/api/v1/documents/:id/summary"
route_path search = lit "/api/v1/search"
route_path rag_query = lit "/api/v1/rag/query"
route_path admin_ping = lit "/api/v1/admin/ping"
route_path admin_evaluate = lit "/api/v1/admin/evaluate"
route_path admin_users = lit "/api/v1/admin/users"
route_path admin_documents = lit "/api/v1/admin/documents"
route_path admin_jobs = lit "/api/v1/admin/jobs"
route_path admin_stats = lit "/api/v1/admin/stats"

-- No route has the empty path, which stands for none.
route_path-pattern :
    (unrouted : Text) (e : Endpoint)
    → (if is_empty (pattern e) then unrouted else pattern e) ≡ route_path e
unfolding pattern
route_path-pattern unrouted healthz = refl
route_path-pattern unrouted readyz = refl
route_path-pattern unrouted register = refl
route_path-pattern unrouted login = refl
route_path-pattern unrouted me = refl
route_path-pattern unrouted upload_document = refl
route_path-pattern unrouted get_document = refl
route_path-pattern unrouted summarize = refl
route_path-pattern unrouted search = refl
route_path-pattern unrouted rag_query = refl
route_path-pattern unrouted admin_ping = refl
route_path-pattern unrouted admin_evaluate = refl
route_path-pattern unrouted admin_users = refl
route_path-pattern unrouted admin_documents = refl
route_path-pattern unrouted admin_jobs = refl
route_path-pattern unrouted admin_stats = refl

-- The path of the route of a request, if it has one.
abbrev pub route_or : Text → Call → Text
route_or unrouted call = elim call.endpoint [ none ↦ unrouted | some e ↦ route_path e ]

route_or-full_path :
    (unrouted : Text) (call : Call)
    → (if is_empty (full_path call) then unrouted else full_path call) ≡ route_or unrouted call
unfolding full_path
route_or-full_path unrouted call = elim (Option-cases call.endpoint) [
  | inl e ↦ ground arith
  | inr (endpoint, e) ↦ ground (arith, route_path-pattern unrouted endpoint)
]

-- The id that came with a request, or else a new one.
abbrev pub own_id : Draw → Call → Text
own_id d call = if is_empty call.request.id_header then d.minted else call.request.id_header

-- The line of a request that was answered with a status; the time is in milliseconds.
abbrev pub line : Draw → Call → ℕ → Entry
line d call status =
    http_request call.method call.path (route_or call.path call) call.query status
      ((d.logging_end - d.logging_start) / 1000000) call.request.client_ip (own_id d call)

abbrev pub labelled : Draw → Call → ℕ → Sample
labelled d call status = record {
  method = call.method;
  route = route_or (lit "unmatched") call;
  status = format status;
  duration = d.metrics_end - d.metrics_start;
}

module _ (g : ResponseWriter) (d : Draw) (call : Call) (status : ℕ) where
  pub line-request_entry : request_entry g d call status (own_id d call) ≡ line d call status
  line-request_entry =
      ap
        (λ (route : Text).
          http_request call.method call.path route call.query status
            ((d.logging_end - d.logging_start) / 1000000) call.request.client_ip (own_id d call))
        (route_or-full_path call.path call)

  pub labelled-request_sample : request_sample g d call status ≡ labelled d call status
  labelled-request_sample = rw (route_or-full_path (lit "unmatched") call) refl
