-- ===== src/Worker/Tests.antt =====
-- The theorems about the worker pool on one short life of a pool.
use financial_ai_platform.Prelude.{ℕ, ◌<◌, ◌≡◌, refl, ◌⊎◌, true, false, [], ◌∷◌}
use financial_ai_platform.Worker.{Pool, new_pool, start, submit, close, cancel}
use financial_ai_platform.Worker.Steps.{
  submits, take, finish, closes, exit_closed, Run, here, next, Inv, Run-Inv,
}
use financial_ai_platform.Worker.Drain.{work, Step-work, close_drains}

abbrev fresh : Pool ℕ
fresh = start 1 (new_pool 2)

-- One worker; items 7 and 8 are submitted, and the channel is closed.
abbrev loaded : Pool ℕ
loaded = record {
  queue = 7 ∷ 8 ∷ [];
  capacity = 2;
  closed = true;
  cancelled = false;
  polling = 1;
  parked = 0;
  busy = [];
  exited = 0;
  accepted = 7 ∷ 8 ∷ [];
  started = [];
  finished = [];
}

to_loaded : Run fresh loaded
unfolding start new_pool submit close
to_loaded = next (next (next here (submits 7 refl)) (submits 8 refl)) (closes refl)

abbrev drained : Pool ℕ
drained = record loaded {
  queue = [];
  polling = 0;
  exited = 1;
  started = 7 ∷ 8 ∷ [];
  finished = 8 ∷ 7 ∷ [];
}

to_drained : Run fresh drained
to_drained =
    next
      (next
        (next (next (next to_loaded (take 7 (8 ∷ []) 0 refl refl)) (finish [] 7 [] refl))
          (take 8 [] 0 refl refl))
        (finish [] 8 [] refl))
      (exit_closed 0 refl refl refl)

Run-Inv_example : Inv 1 2 drained
Run-Inv_example = Run-Inv 1 2 to_drained

abbrev first_taken : Pool ℕ
first_taken = record loaded { queue = 8 ∷ []; polling = 0; busy = 7 ∷ []; started = 7 ∷ [] }

Step-work_example : (work first_taken < work loaded) ⊎ (first_taken ≡ cancel loaded)
Step-work_example = Step-work 1 2 (Run-Inv 1 2 to_loaded) refl (take 7 (8 ∷ []) 0 refl refl)

close_drains_example : (q : Pool ℕ) × Run loaded q × (q.exited ≡ 1) × (q.cancelled ≡ false)
close_drains_example = close_drains 1 2 to_loaded refl
