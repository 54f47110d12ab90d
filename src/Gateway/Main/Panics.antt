-- ===== src/Gateway/Main/Panics.antt =====
-- What a panic of the scheduler's goroutine does to the process, gateway-go/cmd/gateway/main.go and
-- gateway-go/internal/scheduler/scheduler.go.
use financial_ai_platform.Prelude.{
  ℕ, zero, suc, ◌≡◌, ◌≢◌, ◌⊎◌, inl, inr, refl, arith, true, false, List, [], ◌∷◌, Option, none,
  some, Text, ok, err, ℤ, pos, negsuc,
}
use financial_ai_platform.Config.{Config}
use financial_ai_platform.Conversation.{MemoryStore}
use financial_ai_platform.Cache.{MemoryCache}
use financial_ai_platform.Scheduler
use financial_ai_platform.HttpServer.Listeners.{Net, Listened, listened}
use financial_ai_platform.Gateway.{Outside, Gateway, Memory, in_process, in_redis}
use financial_ai_platform.Gateway.Main.{
  Moment, before_bind, waiting, draining, stopping, Course, after_shutdown, drain, after_serve,
  wait, is_panicked, after_listen, bind, prune_panics,
}

-- A run in which the scheduler's goroutine panics while the pool stops does not end with the status 0.
after_shutdown-stopping :
    (c : Course) (errors : List Text) → (after_shutdown c (some stopping) errors).status ≢ 0
after_shutdown-stopping c [] h = omega (arith, h)
after_shutdown-stopping c (e ∷ errors) h = omega (arith, h)

after_serve-panics :
    (c : Course) (m : Moment) (served : Option (Option Text))
    → (drain c (some m)).status ≢ 0
    → (after_serve c (some m) served).status ≢ 0
after_serve-panics c m none h = h
after_serve-panics c m (some none) h = h
after_serve-panics c m (some (some cause)) h = λ e. omega (arith, e)

Memory-cases :
    (m : Memory)
    → ((store : MemoryStore) × (searches : MemoryCache) × (m ≡ in_process store searches))
      ⊎ ((address : Text) × (m ≡ in_redis address))
Memory-cases (in_process store searches) = inl (store, searches, refl)
Memory-cases (in_redis address) = inr (address, refl)

-- The scheduler panics exactly for an interval that is not positive.
pruner_cases :
    {S : Type 0} (task : ℕ → S → S) (interval : ℤ) (s : S)
    → ((k : ℕ) × (interval ≡ pos (suc k))
        × (is_panicked (Scheduler.run task interval [] s) ≡ false))
      ⊎ ((((k : ℕ) × (interval ≡ pos (suc k))) → ⊥)
          × (is_panicked (Scheduler.run task interval [] s) ≡ true))
unfolding Scheduler.run Scheduler.loop
pruner_cases task (pos (suc k)) s = inl (k, refl, refl)
pruner_cases task (pos zero) s = inr (λ (k, e). ground (arith, e), refl)
pruner_cases task (negsuc m) s = inr (λ (k, e). cc e, refl)

module _ {F : Type 0} (o : Outside F) (n : Net) where
  listen-panics :
      (c : Course) (m : Moment) (l : Listened n)
      → (wait c (some m)).status ≢ 0
      → (after_listen o n c (some m) l).status ≢ 0
  listen-panics c m (listened sockets s (err e)) h = λ e. omega (arith, e)
  listen-panics c m (listened sockets s (ok done)) h = h

  pub bind-panics :
      (sockets : n.Sockets) (c : Course) (m : Moment) (cfg : Config F)
      → (bind o n sockets c (some m) cfg).status ≢ 0
  bind-panics sockets c before_bind cfg = λ e. omega (arith, e)
  bind-panics sockets c waiting cfg = listen-panics c waiting _ (λ e. omega (arith, e))
  bind-panics sockets c draining cfg =
      listen-panics c draining _ (after_serve-panics c draining _ (λ e. omega (arith, e)))
  bind-panics sockets c stopping cfg =
      listen-panics c stopping _ (after_serve-panics c stopping _ (after_shutdown-stopping c _))

  abbrev pub UsesRedis : Gateway F → Type 0
  UsesRedis g = (address : Text) × (g.memory ≡ in_redis address)

  abbrev pub HasInterval : Gateway F → Type 0
  HasInterval g = (k : ℕ) × (g.config.conversation_prune_interval ≡ pos (suc k))

  -- Either the pruner does not panic, for a reason, or it does and there is none.
  pub prune_panics_cases :
      (g : Gateway F)
      → ((prune_panics o n g ≡ false) × (UsesRedis g ⊎ HasInterval g))
        ⊎ ((prune_panics o n g ≡ true) × (UsesRedis g → ⊥) × (HasInterval g → ⊥))
  unfolding prune_panics
  prune_panics_cases g = elim (Memory-cases g.memory) [
    | inr (address, e) ↦ inl (ground arith, inl (address, e))
    | inl (store, searches, e) ↦
        elim (pruner_cases (Scheduler.prune_sessions g.config.conversation_max_age)
          g.config.conversation_prune_interval store) [
            | inl (k, positive, calm) ↦ inl (ground arith, inr (k, positive))
            | inr (never, broken) ↦ inr (ground arith, (λ (address, f). cc (e, f)), never)
          ]
  ]
