-- ===== src/Gateway/Main/Exit.antt =====
-- When the process ends well, gateway-go/cmd/gateway/main.go and gateway-go/internal/httpserver/server.go.
use financial_ai_platform.Prelude.{
  ◌≡◌, ◌≢◌, ◌⊎◌, ◌↔◌, inl, inr, refl, sym, ap, ◌∙◌, arith, List, [], ◌∷◌, Option, none, some,
  Option-cases, Result-cases, ok, subst, if◌then◌else◌,
}
use financial_ai_platform.Auth.Service.{Draw}
use financial_ai_platform.Config.{Config, Environment}
use financial_ai_platform.HttpServer.Listeners.{
  Net, host_port, new_server, listen, server_closed, accept_failed, Loop, ServeError, serve, joined,
  shutdown,
}
use financial_ai_platform.Gateway.{
  Outside, Gateway, StartError, config_failed, seed_failed, storage_failed, client_failed,
  queue_panic, start,
}
use financial_ai_platform.Gateway.Main.{
  Moment, Course, exit_status, after_shutdown, after_serve, after_listen, bind, prune_panics,
  after_start, main,
}
use financial_ai_platform.Gateway.Main.Ending.{Ending, start-Ending}
use financial_ai_platform.Gateway.Main.Panics.{
  UsesRedis, HasInterval, bind-panics, prune_panics_cases,
}

-- The wait ends without an error: a signal comes first, or a loop that was closed ends first.
abbrev pub EndsWell : List (Loop × ServeError) → Type 0
EndsWell events =
    (events ≡ [])
    ⊎ ((loop : Loop) × (rest : List (Loop × ServeError)) × (events ≡ (loop, server_closed) ∷ rest))

module _ {F : Type 0} (o : Outside F) (n : Net) where
  -- Both listeners can be bound, the public one first.
  abbrev pub Binds : n.Sockets → Config F → Type 0
  Binds sockets cfg =
      let (first, http) = n.listen sockets (host_port cfg.http_host cfg.http_port) in
      (http ≢ none) × ((n.listen first (host_port cfg.metrics_host cfg.metrics_port)).1 ≢ none)

  -- The pruning of the conversations has a positive interval, or is not needed, or never begins.
  abbrev pub Prunes : Gateway F → Course → Type 0
  Prunes g c = UsesRedis o n g ⊎ HasInterval o n g ⊎ (c.pruner_at ≡ none)

  -- The process starts, binds, prunes, waits and shuts its servers down without an error.
  abbrev pub RunsWell : Environment → Draw → n.Sockets → Course → Type 0
  RunsWell env d sockets c =
      (g : Gateway F) × (start o env d ≡ ok g)
      × Binds sockets g.config
      × Prunes g c
      × EndsWell c.before_signal
      × (c.http_end ≡ none)
      × (c.metrics_end ≡ none)

  shutdown_well :
      (c : Course)
      → ((after_shutdown c none (shutdown c.http_end c.metrics_end)).status ≡ 0)
        ↔ ((c.http_end ≡ none) × (c.metrics_end ≡ none))
  unfolding shutdown joined
  shutdown_well c = elim (Option-cases c.http_end) [
    | inl fine ↦ elim (Option-cases c.metrics_end) [
      | inl well ↦ (λ h. (fine, well), λ h. ground arith)
      | inr (e, broken) ↦ (λ h. absurd (ground arith), λ h. absurd (ground arith))
    ]
    | inr (e, broken) ↦ (λ h. absurd (ground arith), λ h. absurd (ground arith))
  ]

  serve_well :
      (c : Course) (events : List (Loop × ServeError))
      → ((after_serve c none (serve events)).status ≡ 0)
        ↔ (EndsWell events × (c.http_end ≡ none) × (c.metrics_end ≡ none))
  unfolding serve
  serve_well c [] = (
    λ h. let (fine, well) = (shutdown_well c).0 h in (inl refl, fine, well),
    λ (ends, fine, well). (shutdown_well c).1 (fine, well),
  )
  serve_well c ((loop, server_closed) ∷ rest) = (
    λ h. let (fine, well) = (shutdown_well c).0 h in (inr (loop, rest, refl), fine, well),
    λ (ends, fine, well). (shutdown_well c).1 (fine, well),
  )
  serve_well c ((loop, accept_failed cause) ∷ rest) =
      (λ h. absurd (omega (arith, h)), λ (ends, fine, well). absurd (never ends))
    where
      never : EndsWell ((loop, accept_failed cause) ∷ rest) → ⊥
      never (inl e) = cc
      never (inr (loop', rest', e)) = cc

  listen_well :
      (c : Course) (sockets : n.Sockets) (cfg : Config F)
      → ((after_listen o n c none (listen n sockets (new_server n cfg))).status ≡ 0)
        ↔ (Binds sockets cfg × ((after_serve c none (serve c.before_signal)).status ≡ 0))
  unfolding listen new_server
  listen_well c sockets cfg =
      let first = n.listen sockets (host_port cfg.http_host cfg.http_port) in
      let second = n.listen first.0 (host_port cfg.metrics_host cfg.metrics_port) in
      elim (Option-cases first.1) [
        | inl unbound ↦ (λ h. absurd (ground arith), λ h. absurd (h.0.0 unbound))
        | inr (public, bound) ↦ elim (Option-cases second.1) [
          | inl unbound ↦ (λ h. absurd (ground arith), λ h. absurd (h.0.1 unbound))
          | inr (internal, bound') ↦
              let reached : (after_listen o n c none (listen n sockets (new_server n cfg))).status
                  ≡ (after_serve c none (serve c.before_signal)).status =
                ground arith in
              (λ h. ((λ e. cc, λ e. cc), sym reached ∙ h), λ h. reached ∙ h.1)
        ]
      ]

  exit_status-positive : (e : StartError) → exit_status e ≢ 0
  exit_status-positive (config_failed e) h = omega (arith, h)
  exit_status-positive (seed_failed e) h = omega (arith, h)
  exit_status-positive storage_failed h = omega (arith, h)
  exit_status-positive client_failed h = omega (arith, h)
  exit_status-positive queue_panic h = omega (arith, h)

  -- The moment of the panic is none exactly if the pruning goes well.
  panic-Prunes :
      (g : Gateway F) (c : Course)
      → ((if prune_panics o n g then c.pruner_at else none) ≡ none) ↔ Prunes g c
  panic-Prunes g c = elim (prune_panics_cases o n g) [
    | inl (calm, inl uses) ↦ (λ h. inl uses, λ h. ground arith)
    | inl (calm, inr has) ↦ (λ h. inr (inl has), λ h. ground arith)
    | inr (broken, no_redis, no_interval) ↦ (
      λ h. inr (inr (ground arith)),
      λ h. elim h [
        | inl uses ↦ absurd (no_redis uses)
        | inr (inl has) ↦ absurd (no_interval has)
        | inr (inr absent) ↦ ground arith
      ],
    )
  ]

  -- Behind a start, the status is 0 exactly if the rest goes well.
  bind_well :
      (sockets : n.Sockets) (c : Course) (panic : Option Moment) (cfg : Config F)
      → ((bind o n sockets c panic cfg).status ≡ 0) ↔ (
          (panic ≡ none)
          × Binds sockets cfg
          × EndsWell c.before_signal
          × (c.http_end ≡ none)
          × (c.metrics_end ≡ none))
  bind_well sockets c (some m) cfg = (λ h. absurd (bind-panics o n sockets c m cfg h), λ h. cc h.0)
  bind_well sockets c none cfg = (
    λ h.
        let (binds, served) = (listen_well c sockets cfg).0 h in
        let (ends, fine, well) = (serve_well c c.before_signal).0 served in
        (refl, binds, ends, fine, well),
    λ (absent, binds, ends, fine, well).
        (listen_well c sockets cfg).1 (binds, (serve_well c c.before_signal).1 (ends, fine, well)),
  )

  start_well :
      (env : Environment) (d : Draw) (sockets : n.Sockets) (c : Course)
      → ((after_start o n sockets c (start o env d)).status ≡ 0) ↔ RunsWell env d sockets c
  start_well env d sockets c = elim (Result-cases (start o env d)) [
    | inr (x, e) ↦ (
      λ h.
          absurd
            (exit_status-positive x (sym (ap (λ r. (after_start o n sockets c r).status) e) ∙ h)),
      λ h. absurd (cc (h.1, e)),
    )
    | inl (g, e) ↦
        let panic : Option Moment = if prune_panics o n g then c.pruner_at else none in
        let reached : (after_start o n sockets c (start o env d)).status
            ≡ (bind o n sockets c panic g.config).status =
          ap (λ r. (after_start o n sockets c r).status) e in
        (
          λ h.
              let (calm, binds, ends, fine, well) =
                (bind_well sockets c panic g.config).0 (sym reached ∙ h) in
              (g, e, binds, (panic-Prunes g c).0 calm, ends, fine, well),
          λ (g', started, binds, prunes, ends, fine, well).
              let same : g' ≡ g = cc in
              let calm = (panic-Prunes g c).1 (subst (λ k. Prunes k c) same prunes) in
              reached
              ∙ (bind_well sockets c panic g.config).1
                  (calm, subst (λ k. Binds sockets k.config) same binds, ends, fine, well),
        )
  ]

  -- The process ends with the status 0 exactly if it starts, binds both listeners, prunes its conversations at a
  -- positive interval, unless they are in Redis or the pruning never begins, is ended by a signal or by a
  -- loop that was closed, and both servers shut down without an error. With the status 0 the pool is
  -- closed, whether or not it drains in time; otherwise the status is 1 and the pool is not closed, or
  -- the process ends by a panic with the status 2.
  pub main-RunsWell :
      (env : Environment) (d : Draw) (sockets : n.Sockets) (c : Course)
      → (((main o n env d sockets c).status ≡ 0) ↔ RunsWell env d sockets c)
        × Ending (main o n env d sockets c)
  unfolding main
  main-RunsWell env d sockets c =
      (start_well env d sockets c, start-Ending o n sockets c (start o env d))
