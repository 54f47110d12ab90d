-- ===== src/Gateway/Main/Ending.antt =====
-- How the process ends, gateway-go/cmd/gateway/main.go: the status against the pool.
use financial_ai_platform.Prelude.{
  ◌≡◌, ◌⊎◌, inl, inr, refl, true, false, List, [], ◌∷◌, Option, none, some, Text, ok, err, Result,
}
use financial_ai_platform.Config.{Config}
use financial_ai_platform.HttpServer.Listeners.{Net, Listened, listened}
use financial_ai_platform.Gateway.{
  Outside, Gateway, StartError, config_failed, seed_failed, storage_failed, client_failed,
  queue_panic,
}
use financial_ai_platform.Gateway.Main.{
  Moment, before_bind, waiting, draining, stopping, Course, End, after_shutdown, drain, after_serve,
  wait, after_listen, bind, after_start,
}

-- How the process ended: with the pool closed and the status 0, with the status 1 and the pool left alone, or
-- by a panic.
abbrev pub Ending : End → Type 0
Ending end =
    ((end.status ≡ 0) × (end.closed_queue ≡ true))
    ⊎ ((end.status ≡ 1) × (end.closed_queue ≡ false))
    ⊎ (end.status ≡ 2)

after_shutdown-Ending :
    (c : Course) (panic : Option Moment) (errors : List Text)
    → Ending (after_shutdown c panic errors)
after_shutdown-Ending c panic (e ∷ errors) = inr (inl (refl, refl))
after_shutdown-Ending c (some stopping) [] = inr (inr refl)
after_shutdown-Ending c (some draining) [] = inl (refl, refl)
after_shutdown-Ending c (some waiting) [] = inl (refl, refl)
after_shutdown-Ending c (some before_bind) [] = inl (refl, refl)
after_shutdown-Ending c none [] = inl (refl, refl)

drain-Ending : (c : Course) (panic : Option Moment) → Ending (drain c panic)
drain-Ending c (some draining) = inr (inr refl)
drain-Ending c (some stopping) = after_shutdown-Ending c (some stopping) _
drain-Ending c (some waiting) = after_shutdown-Ending c (some waiting) _
drain-Ending c (some before_bind) = after_shutdown-Ending c (some before_bind) _
drain-Ending c none = after_shutdown-Ending c none _

after_serve-Ending :
    (c : Course) (panic : Option Moment) (served : Option (Option Text))
    → Ending (after_serve c panic served)
after_serve-Ending c panic none = drain-Ending c panic
after_serve-Ending c panic (some none) = drain-Ending c panic
after_serve-Ending c panic (some (some cause)) = inr (inl (refl, refl))

wait-Ending : (c : Course) (panic : Option Moment) → Ending (wait c panic)
wait-Ending c (some waiting) = inr (inr refl)
wait-Ending c (some draining) = after_serve-Ending c (some draining) _
wait-Ending c (some stopping) = after_serve-Ending c (some stopping) _
wait-Ending c (some before_bind) = after_serve-Ending c (some before_bind) _
wait-Ending c none = after_serve-Ending c none _

module _ {F : Type 0} (o : Outside F) (n : Net) where
  listen-Ending :
      (c : Course) (panic : Option Moment) (l : Listened n) → Ending (after_listen o n c panic l)
  listen-Ending c panic (listened sockets s (err e)) = inr (inl (refl, refl))
  listen-Ending c panic (listened sockets s (ok done)) = wait-Ending c panic

  bind-Ending :
      (sockets : n.Sockets) (c : Course) (panic : Option Moment) (cfg : Config F)
      → Ending (bind o n sockets c panic cfg)
  bind-Ending sockets c (some before_bind) cfg = inr (inr refl)
  bind-Ending sockets c (some waiting) cfg = listen-Ending c (some waiting) _
  bind-Ending sockets c (some draining) cfg = listen-Ending c (some draining) _
  bind-Ending sockets c (some stopping) cfg = listen-Ending c (some stopping) _
  bind-Ending sockets c none cfg = listen-Ending c none _

  pub start-Ending :
      (sockets : n.Sockets) (c : Course) (r : Result StartError (Gateway F))
      → Ending (after_start o n sockets c r)
  start-Ending sockets c (err (config_failed e)) = inr (inl (refl, refl))
  start-Ending sockets c (err (seed_failed e)) = inr (inl (refl, refl))
  start-Ending sockets c (err storage_failed) = inr (inl (refl, refl))
  start-Ending sockets c (err client_failed) = inr (inl (refl, refl))
  start-Ending sockets c (err queue_panic) = inr (inr refl)
  start-Ending sockets c (ok g) = bind-Ending sockets c _ g.config
