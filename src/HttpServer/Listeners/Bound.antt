-- ===== src/HttpServer/Listeners/Bound.antt =====
-- What the server reports of its listeners, gateway-go/internal/httpserver/server.go.
use financial_ai_platform.Prelude.{
  ◌≡◌, ◌⊎◌, inl, inr, refl, arith, none, some, Option-cases, ok, err,
}
use financial_ai_platform.Config.{Config}
use financial_ai_platform.HttpServer.Listeners.{
  Net, host_port, Server, new_server, bind_public, bind_metrics, listened, listen, http_addr,
  metrics_addr,
}

-- Listen binds the public address and then that of the metrics, and the server reports what was bound;
-- without the first it binds neither, and without the second it keeps the first, which stays bound.
pub listen_cases :
    {F : Type 0} (n : Net) (cfg : Config F) (sockets : n.Sockets)
    → let first = n.listen sockets (host_port cfg.http_host cfg.http_port) in
      let second = n.listen first.0 (host_port cfg.metrics_host cfg.metrics_port) in
      ((s : Server n) × (l m : n.Listener) × (first.1 ≡ some l)
        × (second.1 ≡ some m)
        × (listen n sockets (new_server n cfg) ≡ listened second.0 s (ok tt))
        × (http_addr n s ≡ n.addr l)
        × (metrics_addr n s ≡ n.addr m))
      ⊎ ((s : Server n) × (first.1 ≡ none)
          × (listen n sockets (new_server n cfg) ≡ listened first.0 s (err bind_public))
          × (http_addr n s ≡ host_port cfg.http_host cfg.http_port))
      ⊎ ((s : Server n) × (l : n.Listener) × (first.1 ≡ some l)
          × (second.1 ≡ none)
          × (listen n sockets (new_server n cfg) ≡ listened second.0 s (err bind_metrics))
          × (http_addr n s ≡ n.addr l))
unfolding listen new_server http_addr metrics_addr
listen_cases n cfg sockets =
    let first = n.listen sockets (host_port cfg.http_host cfg.http_port) in
    let second = n.listen first.0 (host_port cfg.metrics_host cfg.metrics_port) in
    elim (Option-cases first.1) [
      | inl unbound ↦ inr (inl (new_server n cfg, unbound, ground arith, refl))
      | inr (l, bound) ↦
          let server : Server n = record (new_server n cfg) { http_listener = some l } in
          elim (Option-cases second.1) [
            | inl unbound ↦ inr (inr (server, l, bound, unbound, ground arith, refl))
            | inr (m, also_bound) ↦ inl (
              record server { metrics_listener = some m },
              l,
              m,
              bound,
              also_bound,
              ground arith,
              refl,
              refl,
            )
          ]
    ]
