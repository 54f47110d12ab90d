-- ===== src/Gateway/Main.antt =====
-- The whole of main, gateway-go/cmd/gateway/main.go: the start, the listeners, the wait for a signal or for the
-- end of an accept loop, and the end, with the status of the process. What the servers and the
-- worker pool answer is given.
pub mod Ending
pub mod Panics
pub mod Exit
use financial_ai_platform.Prelude.{
  ℕ, Bool, true, false, List, [], ◌∷◌, Option, none, some, Text, Result, ok, err, if◌then◌else◌,
}
use financial_ai_platform.Auth.Service.{Draw}
use financial_ai_platform.Config.{Config, Environment}
use financial_ai_platform.HttpServer.Listeners.{
  Net, Server, new_server, Listened, listened, listen, Loop, ServeError, serve, shutdown,
}
use financial_ai_platform.Gateway.{
  Outside, Gateway, in_process, in_redis, StartError, queue_panic, start,
}
use financial_ai_platform.Scheduler

-- When the goroutine of the scheduler first runs: before the listeners are bound, while main waits, during
-- Shutdown, or during the pool's Stop.
pub data Moment : Type 0 where
  before_bind waiting draining stopping : Moment

-- What happens in a run: when the goroutine of the scheduler first runs, if it does at all; the errors that
-- the accept loops send before a signal comes, none of them if it comes first; what Shutdown of the two
-- servers returns; and whether the pool drains before the deadline.
pub record Course : Type 0 where
  pub pruner_at : Option Moment
  pub before_signal : List (Loop × ServeError)
  pub http_end : Option Text
  pub metrics_end : Option Text
  pub pool_drains : Bool

-- The last thing that main logs, or the trace of a panic.
pub data Line : Type 0 where
  start_failed : StartError → Line
  failed_to_bind server_failed shutdown_failed : Line
  stopped pool_not_drained_then_stopped : Line
  pruner_panicked : Line

-- `shut_down` and `closed_queue`: whether Shutdown and the pool's Stop were called.
pub record End : Type 0 where
  pub status : ℕ
  pub last_line : Line
  pub shut_down : Bool
  pub closed_queue : Bool

abbrev pub exit_early : Line → End
exit_early line = record { status = 1; last_line = line; shut_down = false; closed_queue = false }

-- A panic that nothing recovers ends a process with the status 2; NewPool panics in main itself.
abbrev pub exit_status : StartError → ℕ
exit_status queue_panic = 2
exit_status _ = 1

abbrev pub exit_panicking : Bool → Bool → End
exit_panicking shut_down closed_queue = record {
  status = 2;
  last_line = pruner_panicked;
  shut_down = shut_down;
  closed_queue = closed_queue;
}

abbrev pub stopped_line : Bool → Line
stopped_line true = stopped
stopped_line false = pool_not_drained_then_stopped

-- The pool's Stop.
abbrev pub after_stop : Course → Option Moment → End
after_stop c (some stopping) = exit_panicking true true
after_stop c _ = record {
  status = 0;
  last_line = stopped_line c.pool_drains;
  shut_down = true;
  closed_queue = true;
}

-- The functions from here on are given the moment at which the goroutine of the scheduler panics, if it
-- does.
abbrev pub after_shutdown : Course → Option Moment → List Text → End
after_shutdown c panic (e ∷ errors) = record {
  status = 1;
  last_line = shutdown_failed;
  shut_down = true;
  closed_queue = false;
}
after_shutdown c panic [] = after_stop c panic

abbrev pub drain : Course → Option Moment → End
drain c (some draining) = exit_panicking true false
drain c panic = after_shutdown c panic (shutdown c.http_end c.metrics_end)

-- The select: a signal, or the return of Serve.
abbrev pub after_serve : Course → Option Moment → Option (Option Text) → End
after_serve c panic none = drain c panic
after_serve c panic (some none) = drain c panic
after_serve c panic (some (some cause)) = exit_early server_failed

abbrev pub wait : Course → Option Moment → End
wait c (some waiting) = exit_panicking false false
wait c panic = after_serve c panic (serve c.before_signal)

abbrev pub is_panicked : {S : Type 0} → Scheduler.Loop S → Bool
is_panicked Scheduler.panicked = true
is_panicked _ = false

module _ {F : Type 0} (o : Outside F) (n : Net) where
  abbrev pub after_listen : Course → Option Moment → Listened n → End
  after_listen c panic (listened sockets s (err e)) = exit_early failed_to_bind
  after_listen c panic (listened sockets s (ok done)) = wait c panic

  abbrev pub bind : n.Sockets → Course → Option Moment → Config F → End
  bind sockets c (some before_bind) cfg = exit_panicking false false
  bind sockets c panic cfg = after_listen c panic (listen n sockets (new_server n cfg))

  -- Whether the goroutine that prunes the conversations panics as soon as it runs; the store in Redis has
  -- none.
  unfoldable pub prune_panics : Gateway F → Bool
  unfolding Scheduler.run
  prune_panics g = elim g.memory [
    | in_process store searches ↦ is_panicked (
        Scheduler.run (Scheduler.prune_sessions g.config.conversation_max_age)
          g.config.conversation_prune_interval [] store)
    | in_redis addr ↦ false
  ]

  abbrev pub after_start : n.Sockets → Course → Result StartError (Gateway F) → End
  after_start sockets c (err e) = record {
    status = exit_status e;
    last_line = start_failed e;
    shut_down = false;
    closed_queue = false;
  }
  after_start sockets c (ok g) =
      bind sockets c (if prune_panics g then c.pruner_at else none) g.config

  unfoldable pub main : Environment → Draw → n.Sockets → Course → End
  unfolding serve shutdown listen new_server start prune_panics
  main env d sockets c = after_start sockets c (start o env d)
