-- ===== src/Gateway/Shutdown/Order.antt =====
-- Why the queue is closed last, gateway-go/cmd/gateway/main.go.
use financial_ai_platform.Prelude.{
  ℕ, zero, suc, ◌<◌, ◌≡◌, ◌≢◌, ◌⊎◌, refl, sym, ◌∙◌, subst, arith, inl, inr, Bool, true, false, [],
  count, Bool-cases, ◌==◌,
}
use financial_ai_platform.Worker.{
  Pool, new_pool, start, Submitted, sent, queue_full, panicked, submit, close,
}
use financial_ai_platform.Worker.Steps as Worker
use financial_ai_platform.Worker.Drain.{exited_drained}
use financial_ai_platform.Gateway.Shutdown.{
  Phase, serving, draining, drained, stopped, Process, launched, submitted, Step, accepts, submits,
  answers, shuts_down, returns, stops, works, Run, here, next,
}

-- Whether the queue is closed, and who may be in flight, in a phase.
abbrev pub Fits : Phase → Bool → ℕ → Type 0
Fits serving closed n = closed ≡ false
Fits draining closed n = closed ≡ false
Fits drained closed n = (closed ≡ false) × (n ≡ 0)
Fits stopped closed n = (closed ≡ true) × (n ≡ 0)

-- With a request in flight the queue is open, and the phase allows any number of them.
open_in_flight :
    (phase : Phase) (closed : Bool) (n m : ℕ)
    → Fits phase closed (suc n)
    → (closed ≡ false) × Fits phase closed m
open_in_flight serving closed n m h = (h, h)
open_in_flight draining closed n m h = (h, h)
open_in_flight drained closed n m (h, none) = absurd (omega arith)
open_in_flight stopped closed n m (h, none) = absurd (omega arith)

-- A closed queue is that of the last phase.
closed_stopped :
    (phase : Phase) (closed : Bool) (n : ℕ)
    → Fits phase closed n
    → closed ≡ true
    → (phase ≡ stopped) × (n ≡ 0)
closed_stopped serving closed n h e = absurd (cc)
closed_stopped draining closed n h e = absurd (cc)
closed_stopped drained closed n h e = absurd (cc (h.0))
closed_stopped stopped closed n h e = (refl, h.1)

submit-kept :
    {T : Type 0} (p q : Pool T) (item : T) (n : ℕ)
    → p.parked ≡ n
    → submit p item ≡ sent q
    → (q.closed ≡ p.closed) × (q.cancelled ≡ p.cancelled)
unfolding submit
submit-kept p q item zero idle e = (ground arith, ground arith)
submit-kept p q item (suc n) idle e = (ground arith, ground arith)

submit_open :
    {T : Type 0} (p : Pool T) (item : T) (n : ℕ)
    → p.parked ≡ n
    → p.closed ≡ false
    → submit p item ≢ panicked
unfolding submit
submit_open p item zero idle is_open e = ground arith
submit_open p item (suc n) idle is_open e = ground arith

module _ {T : Type 0} (workers capacity : ℕ) where
  record Inv (p : Process T) : Type 0 where
    fits : Fits p.phase p.pool.closed p.in_flight
    no_panic : p.panics ≡ 0
    not_cancelled : p.pool.cancelled ≡ false
    pool_run : Worker.Run (start workers (new_pool capacity)) p.pool

  in_phase :
      {p : Process T} (phase : Phase)
      → Inv p
      → p.phase ≡ phase
      → Fits phase p.pool.closed p.in_flight
  in_phase {p} phase v at = subst (λ f. Fits f p.pool.closed p.in_flight) at v.fits

  Inv-submitted :
      (p : Process T) (item : T) (r : Submitted T)
      → submit p.pool item ≡ r
      → p.pool.closed ≡ false
      → Inv p
      → Inv (submitted p r)
  Inv-submitted p item (sent pool) e is_open v =
      let (same_closed, same_cancelled) = submit-kept p.pool pool item p.pool.parked refl e in
      record {
        fits = subst (λ c. Fits p.phase c p.in_flight) (sym same_closed) v.fits;
        no_panic = v.no_panic;
        not_cancelled = same_cancelled ∙ v.not_cancelled;
        pool_run = Worker.next v.pool_run (Worker.submits item e);
      }
  Inv-submitted p item queue_full e is_open v = v
  Inv-submitted p item panicked e is_open v =
      absurd (submit_open p.pool item p.pool.parked refl is_open e)

  Step-Inv : {p q : Process T} → Step p q → Inv p → Inv q
  Step-Inv (accepts {p} at) v = record {
    fits = subst (λ f. Fits f p.pool.closed (suc p.in_flight)) (sym at) (in_phase serving v at);
    no_panic = v.no_panic;
    not_cancelled = v.not_cancelled;
    pool_run = v.pool_run;
  }
  Step-Inv (submits {p} n item busy) v =
      let (is_open, fits) =
        open_in_flight p.phase p.pool.closed n n
          (subst (λ m. Fits p.phase p.pool.closed m) busy v.fits) in
      Inv-submitted p item (submit p.pool item) refl is_open v
  Step-Inv (answers {p} n busy) v = record {
    fits =
        (open_in_flight p.phase p.pool.closed n n
          (subst (λ m. Fits p.phase p.pool.closed m) busy v.fits)).1;
    no_panic = v.no_panic;
    not_cancelled = v.not_cancelled;
    pool_run = v.pool_run;
  }
  Step-Inv (shuts_down {p} at) v = record {
    fits = in_phase serving v at;
    no_panic = v.no_panic;
    not_cancelled = v.not_cancelled;
    pool_run = v.pool_run;
  }
  Step-Inv (returns {p} at idle) v = record {
    fits = (in_phase draining v at, idle);
    no_panic = v.no_panic;
    not_cancelled = v.not_cancelled;
    pool_run = v.pool_run;
  }
  Step-Inv (stops {p} at) v =
      unfold close in
      record {
        fits = (refl, (in_phase drained v at).1);
        no_panic = v.no_panic;
        not_cancelled = v.not_cancelled;
        pool_run = Worker.next v.pool_run (Worker.closes ((in_phase drained v at).0));
      }
  Step-Inv (works {p} {pool} step kept same cancelled) v = record {
    fits = subst (λ c. Fits p.phase c p.in_flight) (sym same) v.fits;
    no_panic = v.no_panic;
    not_cancelled = cancelled ∙ v.not_cancelled;
    pool_run = Worker.next v.pool_run step;
  }

  Inv-launched : Inv (launched workers capacity)
  unfolding start new_pool
  Inv-launched = record {
    fits = refl;
    no_panic = refl;
    not_cancelled = refl;
    pool_run = Worker.here;
  }

  Run-keeps : {p q : Process T} → Inv p → Run p q → Inv q
  Run-keeps v here = v
  Run-keeps v (next r s) = Step-Inv s (Run-keeps v r)

  -- The end of a process whose workers have all exited.
  abbrev pub IsDrained : Process T → Type 0
  IsDrained p =
      (p.phase ≡ stopped)
      × (p.in_flight ≡ 0)
      × (p.pool.queue ≡ [])
      × (p.pool.busy ≡ [])
      × ((test : T → Bool) → count test p.pool.finished ≡ count test p.pool.accepted)

  -- However requests, workers and the shutdown are interleaved, no upload meets a closed queue; and all
  -- workers, if there are any, have exited only when `Stop` was called with no request left, and each job
  -- that an upload submitted has been processed as often as it was submitted.
  pub Run-IsDrained :
      {p : Process T}
      → Run (launched workers capacity) p
      → 0 < workers
      → (p.panics ≡ 0) × ((p.pool.exited ≢ workers) ⊎ IsDrained p)
  Run-IsDrained {p} r some_worker =
      let v = Run-keeps Inv-launched r in
      (
        v.no_panic,
        elim (Bool-cases (p.pool.exited == workers)) [
          | inl gone ↦
              let (is_closed, empty, idle, counted) =
                exited_drained workers capacity v.pool_run some_worker (ground arith)
                  v.not_cancelled in
              let (last, nobody) =
                closed_stopped p.phase p.pool.closed p.in_flight v.fits is_closed in
              inr (last, nobody, empty, idle, counted)
          | inr left ↦ inl (λ e. ground arith)
        ],
      )
