-- ===== src/HttpServer/Engine/Records.antt =====
-- What the engine answers, logs and counts (gateway-go/internal/httpserver/server.go and the middleware of
-- New), one request and then one after the other.
use mathlib.Core.List.{append_assoc, flat_map}
use financial_ai_platform.Prelude.{
  ◌≡◌, ◌⊎◌, inl, inr, refl, sym, ◌∙◌, arith, true, Bool-cases, List, [], ◌∷◌, ◌++◌, map, append-nil,
  Text, lit,
}
use financial_ai_platform.HttpServer.{request_id}
use financial_ai_platform.HttpServer.Engine.{
  request_id_header, ResponseWriter, Call, Entry, panic_recovered, Sample, Handled, returns, panics,
  Draw, Exchange, Handler, recovery, stamp_request_id, logging, metrics, run_handler, serve_http,
}
use financial_ai_platform.HttpServer.Engine.Labels.{
  own_id, line, labelled, line-request_entry, labelled-request_sample,
}

Handled-cases :
    {W : Type 0} (r : Handled W)
    → ((w : W) × (r ≡ returns w)) ⊎ ((w : W) × (panic : Text) × (r ≡ panics w panic))
Handled-cases (returns w) = inl (w, refl)
Handled-cases (panics w panic) = inr (w, panic, refl)

module _ (g : ResponseWriter) where
  -- A request with its handler, the fresh response, and what is drawn for it.
  pub record Arrival : Type 0 where
    pub draw : Draw
    pub call : Call
    pub handler : Handler g
    pub response : g.Writer

  -- The log and the samples.
  pub record Observed : Type 0 where
    pub entries : List Entry
    pub samples : List Sample

  abbrev pub id_of : Arrival → Text
  id_of a = own_id a.draw a.call

  -- What the handler makes of the response that carries the id.
  abbrev pub outcome : Arrival → Handled g.Writer
  outcome a = a.handler (id_of a) (g.set_header a.response (lit "X-Request-ID") (id_of a))

  abbrev pub entry_of : Arrival → Handled g.Writer → Entry
  entry_of a (returns w) = line a.draw a.call (g.status w)
  entry_of a (panics w panic) = panic_recovered panic a.call.path a.call.method

  abbrev pub samples_of : Arrival → Handled g.Writer → List Sample
  samples_of a (returns w) = labelled a.draw a.call (g.status w) ∷ []
  samples_of a (panics w panic) = []

  abbrev pub writer_of : Handled g.Writer → g.Writer
  writer_of (returns w) = w
  writer_of (panics w panic) = g.abort_with_error w 500 (lit "internal server error")

  abbrev pub served : Arrival → Observed → Exchange g
  served a o =
      serve_http g a.draw a.call a.handler
        (record { writer = a.response; id = []; entries = o.entries; samples = o.samples })

  -- The requests one after the other.
  unfoldable pub serve_all : List Arrival → Observed → Observed
  serve_all [] o = o
  serve_all (a ∷ rest) o =
      let x = served a o in serve_all rest (record { entries = x.entries; samples = x.samples })

  abbrev pub Records : Arrival → Observed → Type 0
  Records a o =
      ((served a o).writer ≡ writer_of (outcome a))
      × ((served a o).entries ≡ o.entries ++ entry_of a (outcome a) ∷ [])
      × ((served a o).samples ≡ o.samples ++ samples_of a (outcome a))

  pub serve_http-Records : (a : Arrival) (o : Observed) → Records a o
  unfolding serve_http recovery stamp_request_id logging metrics run_handler request_id
  serve_http-Records a o = elim (Handled-cases (outcome a)) [
    | inl (w, e) ↦ (
      ground arith,
      ground (arith, line-request_entry g a.draw a.call (g.status w)),
      ground (arith, labelled-request_sample g a.draw a.call (g.status w)),
    )
    | inr (w, panic, e) ↦ (ground arith, ground arith, ground (arith, append-nil o.samples))
  ]

  -- Each request is answered with what its handler has made of a response that carries the request's id; or,
  -- when the handler panics, with the status 500, unless the response was written before. In both cases the
  -- answer still carries the id, if the handler leaves that header alone.
  pub serve_http-Answers :
      (a : Arrival) (o : Observed)
      → ((w : g.Writer)
          → (outcome a ≡ returns w) ⊎ ((panic : Text) × (outcome a ≡ panics w panic))
          → g.header w request_id_header
            ≡ g.header (g.set_header a.response request_id_header (id_of a)) request_id_header)
      → (((w : g.Writer) × (outcome a ≡ returns w) × ((served a o).writer ≡ w))
          ⊎ ((w : g.Writer) × (panic : Text) × (outcome a ≡ panics w panic)
              × ((g.is_written w ≡ true) ⊎ (g.status (served a o).writer ≡ 500))))
        × (g.header (served a o).writer request_id_header ≡ id_of a)
  serve_http-Answers a o keeps =
      let (written, logged, counted) = serve_http-Records a o in
      let stamped = g.header-set_header a.response request_id_header (id_of a) in
      elim (Handled-cases (outcome a)) [
        | inl (w, e) ↦
            let same : (served a o).writer ≡ w = ground arith in
            let id = keeps w (inl e) in (inl (w, e, same), rw same (id ∙ stamped))
        | inr (w, panic, e) ↦
            let message = lit "internal server error" in
            let same : (served a o).writer ≡ g.abort_with_error w 500 message = ground arith in
            let id = keeps w (inr (panic, e)) in
            (
              inr (
                w,
                panic,
                e,
                elim (Bool-cases (g.is_written w)) [
                  | inl late ↦ inl late
                  | inr early ↦ inr (rw same (g.status-abort w 500 message early))
                ],
              ),
              rw same (g.request_id-abort w 500 message ∙ id ∙ stamped),
            )
      ]

  -- Of requests served one after the other, each leaves one line in the log, in their order: the line of its
  -- status, if its handler returned, and that of the panic otherwise; and exactly those whose handler
  -- returned are counted, with their method, their route and their status.
  pub serve_all-recorded :
      (arrivals : List Arrival) (o : Observed)
      → ((serve_all arrivals o).entries ≡ o.entries ++ map (λ a. entry_of a (outcome a)) arrivals)
        × ((serve_all arrivals o).samples
            ≡ o.samples ++ flat_map (λ a. samples_of a (outcome a)) arrivals)
  unfolding serve_all flat_map
  serve_all-recorded [] o = (sym (append-nil o.entries), sym (append-nil o.samples))
  serve_all-recorded (a ∷ rest) o =
      let (written, logged, counted) = serve_http-Records a o in
      let x = served a o in
      let (later, later_counted) =
        serve_all-recorded rest (record { entries = x.entries; samples = x.samples }) in
      (
        later ∙ rw logged (append_assoc o.entries (entry_of a (outcome a) ∷ []) _),
        later_counted ∙ rw counted (append_assoc o.samples (samples_of a (outcome a)) _),
      )
