-- ===== src/Worker.antt =====
-- The bounded worker pool (gateway-go/internal/worker/pool.go): a buffered channel and a fixed
-- number of goroutines. A worker is `polling` (about to select), `parked` (blocked in its select),
-- busy with an item, or gone. `accepted`, `started` and `finished` record the items that
-- `Submit` took, those handed to the process function and those that it returned from; they are
-- histories, which the program does not keep.
pub mod Steps
pub mod Drain
pub mod Held
mod Tests
use financial_ai_platform.Prelude.{
  ℕ, zero, suc, ◌+◌, Bool, true, false, List, [], ◌∷◌, ◌++◌, if◌then◌else◌, ltb, length,
}

pub record Pool {ℓ} (T : Type ℓ) : Type ℓ where
  pub queue : List T
  pub capacity : ℕ
  pub closed : Bool
  pub cancelled : Bool
  pub polling : ℕ
  pub parked : ℕ
  pub busy : List T
  pub exited : ℕ
  pub accepted : List T
  pub started : List T
  pub finished : List T

-- A send in a `select` with a `default`: it panics on a closed channel, is handed to a receiver that
-- is parked, goes to the buffer if there is room, and otherwise is not made.
pub data Submitted {ℓ} (T : Type ℓ) : Type ℓ where
  sent : Pool T → Submitted T
  queue_full : Submitted T
  panicked : Submitted T

module _ {ℓ} {T : Type ℓ} where
  -- NewPool; `Start` adds the workers.
  unfoldable pub new_pool : ℕ → Pool T
  new_pool queue_size = record {
    queue = [];
    capacity = queue_size;
    closed = false;
    cancelled = false;
    polling = 0;
    parked = 0;
    busy = [];
    exited = 0;
    accepted = [];
    started = [];
    finished = [];
  }

  unfoldable pub start : ℕ → Pool T → Pool T
  start workers p = record p { polling = p.polling + workers }

  unfoldable pub submit : Pool T → T → Submitted T
  submit p item = if p.closed then panicked else elim p.parked [
    | suc n ↦ sent (record p {
      parked = n;
      busy = item ∷ p.busy;
      accepted = p.accepted ++ item ∷ [];
      started = p.started ++ item ∷ [];
    })
    | zero ↦
        if ltb (length p.queue) p.capacity
        then sent (record p { queue = p.queue ++ item ∷ []; accepted = p.accepted ++ item ∷ [] })
        else queue_full
  ]

  -- The first half of `Stop`: closing wakes the parked workers.
  unfoldable pub close : Pool T → Pool T
  close p = record p { closed = true; polling = p.polling + p.parked; parked = 0 }

  -- The context of `Start` is cancelled.
  unfoldable pub cancel : Pool T → Pool T
  cancel p = record p { cancelled = true; polling = p.polling + p.parked; parked = 0 }
