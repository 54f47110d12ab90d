-- ===== src/HttpServer/Engine/Guarded.antt =====
-- The guards of a route under the middleware of the engine (gateway-go/internal/httpserver/server.go and
-- routes.go): what is logged and counted for a request that a guard refuses.
use financial_ai_platform.Prelude.{
  ℕ, ◌-◌, ◌/◌, format, ◌≡◌, ◌⊎◌, inl, inr, ap, ◌∙◌, false, [], ◌∷◌, ◌++◌, some, Text, lit, is_empty,
  if◌then◌else◌,
}
use financial_ai_platform.Auth.Token.{Jwt, TokenService}
use financial_ai_platform.Auth.Middleware.{Context}
use financial_ai_platform.RateLimit.{TokenBucket, Limiter}
use financial_ai_platform.HttpServer.{Endpoint, Request, serve}
use financial_ai_platform.HttpServer.Engine.{
  ResponseWriter, Handled, returns, Draw, Handler, http_request,
}
use financial_ai_platform.HttpServer.Engine.Records.{
  Arrival, Observed, id_of, outcome, entry_of, samples_of, writer_of, served, serve_http-Records,
}
use financial_ai_platform.HttpServer.Engine.Labels.{route_path, line, labelled}
use financial_ai_platform.HttpServer.Access.{access, IsAdmitted, serve-IsAdmitted}
use financial_ai_platform.HttpServer.Refusals.{IsRefusal, guards-Ends}

module _ (g : ResponseWriter) (t : TokenBucket) (j : Jwt) (tokens : TokenService) (now : ℕ)
    (l : Limiter t) (handler : Context → Handler g) where
  -- A guard that aborts returns; the handler of the route runs behind the last guard.
  abbrev refuse : g.Writer → Limiter t → ℕ → Text → Limiter t × Handled g.Writer
  refuse w l' code message = (l', returns (g.abort_with_error w code message))

  unfoldable pub guarded : Endpoint → Request → Text → g.Writer → Limiter t × Handled g.Writer
  guarded e req id w = serve t j tokens (refuse w) e now (λ l' c'. (l', handler c' id w)) l req

  -- The arrival of a request at an endpoint, with the handler behind its guards.
  abbrev pub arrives : Draw → Text → Text → Text → Endpoint → Request → g.Writer → Arrival g
  arrives d method path query e req w = record {
    draw = d;
    call = record { method = method; path = path; query = query; endpoint = some e; request = req };
    handler = λ id w1. (guarded e req id w1).1;
    response = w;
  }

  -- Behind the guards, a request of which no header has been sent reaches its handler if it is admitted, and
  -- is then handled as by that alone; any other leaves the handler alone and is answered with 429, 401 or 403,
  -- and this status is the one that is logged, with the id of the request, and the one that is counted,
  -- under the pattern of the route.
  pub served-guarded :
      (d : Draw) (method path query : Text) (e : Endpoint) (req : Request) (w : g.Writer)
      (o : Observed g)
      → g.is_written (
          g.set_header w
            (lit "X-Request-ID")
            (if is_empty req.id_header then d.minted else req.id_header))
        ≡ false
      → let a = arrives d method path query e req w in
        let x = served g a o in
        ((l' : Limiter t) × (c' : Context) × IsAdmitted t j tokens now l req l' c' (access e)
          × (outcome g a
              ≡ handler c' (id_of g a) (g.set_header w (lit "X-Request-ID") (id_of g a))))
        ⊎ (((l' : Limiter t) (c' : Context) → ¬ IsAdmitted t j tokens now l req l' c' (access e))
            × ((code : ℕ) × IsRefusal code
                × (g.status x.writer ≡ code)
                × (x.entries
                    ≡ o.entries
                      ++ (http_request method path
                            (route_path e)
                            query
                            code
                            ((d.logging_end - d.logging_start) / 1000000)
                            req.client_ip
                            (if is_empty req.id_header then d.minted else req.id_header)
                          ∷ []))
                × (x.samples
                    ≡ o.samples
                      ++ (record {
                        method = method;
                        route = route_path e;
                        status = format code;
                        duration = d.metrics_end - d.metrics_start;
                      }
                          ∷ []))))
  unfolding guarded serve
  served-guarded d method path query e req w o fresh =
      let a = arrives d method path query e req w in
      let id = id_of g a in
      let w1 = g.set_header w (lit "X-Request-ID") id in
      let (written, logged, counted) = serve_http-Records g a o in
      let run : Limiter t → Context → Limiter t × Handled g.Writer =
        λ l' c'. (l', handler c' id w1) in
      elim (guards-Ends t j tokens now req.client_ip (refuse w1) run e l req.context) [
        | inl (l', c', ended, runs) ↦
            inl
              (l', c', (serve-IsAdmitted t j tokens now l req l' c' e).0 ended, ap (λ r. r.1) runs)
        | inr (l', code, message, shown, ended, runs, refusal) ↦
            let refused : outcome g a ≡ returns (g.abort_with_error w1 code shown) =
              ap (λ r. r.1) runs in
            let status = g.status-abort w1 code shown fresh in
            inr (
              λ l2 c2 admitted.
                  cc (ended, (serve-IsAdmitted t j tokens now l req l2 c2 e).1 admitted),
              (
                code,
                refusal,
                ap g.status (written ∙ ap (writer_of g) refused) ∙ status,
                logged
                    ∙ ap (λ r. o.entries ++ entry_of g a r ∷ []) refused
                    ∙ ap (λ n. o.entries ++ line d a.call n ∷ []) status,
                counted
                    ∙ ap (λ r. o.samples ++ samples_of g a r) refused
                    ∙ ap (λ n. o.samples ++ labelled d a.call n ∷ []) status,
              ),
            )
      ]
