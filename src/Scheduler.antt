-- ===== src/Scheduler.antt =====
-- The periodic task, gateway-go/internal/scheduler/scheduler.go, and the pruning of the sessions that
-- gateway-go/cmd/gateway/main.go gives to it. The ticker of package time is a parameter of the runs.
pub mod Ages
mod Tests
use financial_ai_platform.Prelude.{
  ℕ, zero, suc, ◌+◌, ◌-◌, ◌≤◌, Bool, true, false, List, [], ◌∷◌, Text, ltb, if◌then◌else◌, ℤ, pos,
  negsuc,
}
use financial_ai_platform.Conversation.{
  Turn, MemoryStore, new_memory_store, append_turns, prune_older_than,
}

-- What the select sees next: a tick, at a time, or the end of the context.
pub data Event : Type 0 where
  ticked : ℕ → Event
  done : Event

-- A loop that has returned, that still waits, or that panicked.
pub data Loop (S : Type 0) : Type 0 where
  returned waiting : S → Loop S
  panicked : Loop S

module _ {S : Type 0} (task : ℕ → S → S) where
  unfoldable pub loop : List Event → S → Loop S
  loop [] s = waiting s
  loop (ticked now ∷ events) s = loop events (task now s)
  loop (done ∷ events) s = returned s

  -- NewTicker panics unless the interval is positive.
  unfoldable pub run : ℤ → List Event → S → Loop S
  unfolding loop
  run (pos (suc n)) events s = loop events s
  run (pos zero) events s = panicked
  run (negsuc n) events s = panicked

-- `time.Now().Add(-maxAge)`; no time is before 0.
abbrev pub cutoff : ℤ → ℕ → ℕ
cutoff (pos age) now = now - age
cutoff (negsuc n) now = now + suc n

-- The task of main.
unfoldable pub prune_sessions : ℤ → ℕ → MemoryStore → MemoryStore
prune_sessions max_age now s = (prune_older_than (cutoff max_age now) s).0

-- The sessions beside the scheduler: the time, the last tick, and the store.
pub record Sessions : Type 0 where
  pub now : ℕ
  pub last_tick : ℕ
  pub store : MemoryStore

abbrev pub started_at : ℕ → Sessions
started_at now = record { now = now; last_tick = now; store = new_memory_store }

-- Appends and ticks, each at a time when the next tick is not overdue.
pub data Step (interval : ℕ) (max_age : ℤ) : Sessions → Sessions → Type 0 where
  appends :
      {s : Sessions} (now : ℕ) (session_id : Text) (turns : List Turn)
      → s.now ≤ now
      → now ≤ s.last_tick + interval
      → Step interval max_age s
          (record s { now = now; store = append_turns now s.store session_id turns })
  ticks :
      {s : Sessions} (now : ℕ)
      → s.now ≤ now
      → now ≤ s.last_tick + interval
      → Step interval max_age s
          (record { now = now; last_tick = now; store = prune_sessions max_age now s.store })

pub data Run (interval : ℕ) (max_age : ℤ) (s : Sessions) : Sessions → Type 0 where
  here : Run interval max_age s s
  next :
      {t u : Sessions}
      → Run interval max_age s t
      → Step interval max_age t u
      → Run interval max_age s u
