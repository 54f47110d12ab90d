-- ===== src/Gateway/Shutdown.antt =====
-- The life of the process from its listeners to its end, gateway-go/cmd/gateway/main.go: requests in
-- flight, the shutdown of the servers, and then the end of the worker pool. That http.Server.Shutdown
-- returns without an error only when no request is in flight is its documented behaviour.
pub mod Order
use financial_ai_platform.Prelude.{ℕ, zero, suc, ◌≡◌, Bool, List}
use financial_ai_platform.Worker.{
  Pool, new_pool, start, Submitted, sent, queue_full, panicked, submit, close,
}
use financial_ai_platform.Worker.Steps as Worker

-- Where the main goroutine stands: it waits for a signal or the end of the servers, for `Shutdown`, is
-- past it, or in `Stop` and after.
pub data Phase : Type 0 where
  serving draining drained stopped : Phase

-- `panics` counts the requests that met a closed queue.
pub record Process (T : Type 0) : Type 0 where
  pub phase : Phase
  pub in_flight : ℕ
  pub pool : Pool T
  pub panics : ℕ

abbrev pub launched : {T : Type 0} → ℕ → ℕ → Process T
launched workers capacity = record {
  phase = serving;
  in_flight = 0;
  pool = start workers (new_pool capacity);
  panics = 0;
}

module _ {T : Type 0} where
  -- What a call of `Submit` leaves behind.
  abbrev pub submitted : Process T → Submitted T → Process T
  submitted p (sent pool) = record p { pool = pool }
  submitted p queue_full = p
  submitted p panicked = record p { panics = suc p.panics }

  -- Where the deadline of the shutdown passes or a listener fails, the process exits, and its run ends.
  pub data Step : Process T → Process T → Type 0 where
    accepts :
        {p : Process T} → p.phase ≡ serving → Step p (record p { in_flight = suc p.in_flight })
    submits :
        {p : Process T} (n : ℕ) (item : T)
        → p.in_flight ≡ suc n
        → Step p (submitted p (submit p.pool item))
    answers : {p : Process T} (n : ℕ) → p.in_flight ≡ suc n → Step p (record p { in_flight = n })
    shuts_down : {p : Process T} → p.phase ≡ serving → Step p (record p { phase = draining })
    returns :
        {p : Process T}
        → p.phase ≡ draining
        → p.in_flight ≡ 0
        → Step p (record p { phase = drained })
    stops :
        {p : Process T}
        → p.phase ≡ drained
        → Step p (record p { phase = stopped; pool = close p.pool })
    -- A step of a worker: it submits nothing, and neither closes nor cancels the pool.
    works :
        {p : Process T} {pool : Pool T}
        → Worker.Step p.pool pool
        → pool.accepted ≡ p.pool.accepted
        → pool.closed ≡ p.pool.closed
        → pool.cancelled ≡ p.pool.cancelled
        → Step p (record p { pool = pool })

  pub data Run (p : Process T) : Process T → Type 0 where
    here : Run p p
    next : {q r : Process T} → Run p q → Step q r → Run p r
