-- ===== src/HttpServer/Listeners.antt =====
-- The two listeners of the server, gateway-go/internal/httpserver/server.go, with the accept loops and the
-- end that cmd/gateway/main.go makes of them. The network and http.Server are parameters.
pub mod Bound
mod Tests
use financial_ai_platform.Prelude.{
  List, [], ◌∷◌, ◌++◌, Option, none, some, Text, lit, if◌then◌else◌, text_eq, ℤ, format_int, Result,
  ok, err,
}
use financial_ai_platform.Config.{Config}

-- The sockets of the process, net.Listen, which yields a listener or fails, and its address.
pub record Net : Type 1 where
  pub Sockets : Type 0
  pub Listener : Type 0
  pub listen : Sockets → Text → Sockets × Option Listener
  pub addr : Listener → Text

pub data ListenError : Type 0 where
  bind_public bind_metrics : ListenError

-- fmt.Sprintf("%s:%d", host, port)
abbrev pub host_port : Text → ℤ → Text
host_port host port = host ++ (b':' ∷ format_int port)

-- gin's modes.
pub data Mode : Type 0 where
  release_mode debug_mode : Mode

unfoldable pub gin_mode : Text → Mode
gin_mode environment = if text_eq environment (lit "production") then release_mode else debug_mode

module _ (n : Net) where
  pub record Server : Type 0 where
    pub http_address : Text
    pub metrics_address : Text
    pub http_listener : Option n.Listener
    pub metrics_listener : Option n.Listener

  unfoldable pub new_server : {F : Type 0} → Config F → Server
  new_server cfg = record {
    http_address = host_port cfg.http_host cfg.http_port;
    metrics_address = host_port cfg.metrics_host cfg.metrics_port;
    http_listener = none;
    metrics_listener = none;
  }

  pub data Listened : Type 0 where
    listened : n.Sockets → Server → Result ListenError Unit → Listened

  -- A listener that failed is nil, and the error is returned at once.
  unfoldable pub listen : n.Sockets → Server → Listened
  listen sockets s =
      let (first, http) = n.listen sockets s.http_address in
      elim http [
        | none ↦ listened first (record s { http_listener = none }) (err bind_public)
        | some public ↦
            let (second, metrics) = n.listen first s.metrics_address in
            let s1 = record s { http_listener = some public; metrics_listener = metrics } in
            elim metrics [
              | none ↦ listened second s1 (err bind_metrics)
              | some internal ↦ listened second s1 (ok tt)
            ]
      ]

  unfoldable pub http_addr : Server → Text
  http_addr s = elim s.http_listener [ none ↦ s.http_address | some l ↦ n.addr l ]

  unfoldable pub metrics_addr : Server → Text
  metrics_addr s = elim s.metrics_listener [ none ↦ s.metrics_address | some l ↦ n.addr l ]

-- What an accept loop returns: http.Server's Serve always returns an error, ErrServerClosed after
-- Shutdown.
pub data ServeError : Type 0 where
  server_closed : ServeError
  accept_failed : Text → ServeError

-- Which of the two loops ends.
pub data Loop : Type 0 where
  public internal : Loop

-- Serve returns with the first error that a loop sends; the channel holds the other, which nobody reads.
unfoldable pub serve : List (Loop × ServeError) → Option (Option Text)
serve [] = none
serve ((loop, server_closed) ∷ rest) = some none
serve ((loop, accept_failed cause) ∷ rest) = some (some cause)

-- errors.Join of what the two servers return: nil if both are.
unfoldable pub joined : List (Option Text) → List Text
joined [] = []
joined (none ∷ rest) = joined rest
joined (some e ∷ rest) = e ∷ joined rest

-- Both servers are shut down, whatever the first returns.
unfoldable pub shutdown : Option Text → Option Text → List Text
shutdown http metrics = joined (http ∷ metrics ∷ [])
