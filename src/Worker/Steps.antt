-- ===== src/Worker/Steps.antt =====
-- The steps of `runWorker` and of the callers, as a relation, and what every run keeps
-- (gateway-go/internal/worker/pool.go).
use financial_ai_platform.Prelude.{
  ℕ, zero, suc, ◌+◌, ◌≤◌, ◌<◌, ◌≡◌, refl, ap, sym, subst, ◌∙◌, Bool, true, false, List, [], ◌∷◌,
  ◌++◌, arith, length, length-append, count, count-append,
}
use mathlib.Core.List.{append_assoc, append-nil}
use financial_ai_platform.Worker.{Pool, new_pool, start, submit, sent, close, cancel}

module _ {T : Type 0} where
  -- `take` and `park` are the two outcomes of a worker's select on a channel that is open or still
  -- holds items; the last two are its `return`s. A worker that is both offered an item and cancelled
  -- may do either.
  pub data Step : Pool T → Pool T → Type 0 where
    submits : {p p' : Pool T} (item : T) → submit p item ≡ sent p' → Step p p'
    take :
        {p : Pool T} (item : T) (rest : List T) (n : ℕ)
        → p.queue ≡ item ∷ rest
        → p.polling ≡ suc n
        → Step p (record p {
          queue = rest;
          polling = n;
          busy = item ∷ p.busy;
          started = p.started ++ item ∷ [];
        })
    park :
        {p : Pool T} (n : ℕ)
        → p.queue ≡ []
        → p.closed ≡ false
        → p.cancelled ≡ false
        → p.polling ≡ suc n
        → Step p (record p { polling = n; parked = suc p.parked })
    finish :
        {p : Pool T} (before : List T) (item : T) (after : List T)
        → p.busy ≡ before ++ (item ∷ after)
        → Step p (record p {
          busy = before ++ after;
          polling = suc p.polling;
          finished = item ∷ p.finished;
        })
    closes : {p : Pool T} → p.closed ≡ false → Step p (close p)
    cancels : {p : Pool T} → Step p (cancel p)
    exit_closed :
        {p : Pool T} (n : ℕ)
        → p.queue ≡ []
        → p.closed ≡ true
        → p.polling ≡ suc n
        → Step p (record p { polling = n; exited = suc p.exited })
    exit_cancelled :
        {p : Pool T} (n : ℕ)
        → p.cancelled ≡ true
        → p.polling ≡ suc n
        → Step p (record p { polling = n; exited = suc p.exited })

  pub data Run (p : Pool T) : Pool T → Type 0 where
    here : Run p p
    next : {q r : Pool T} → Run p q → Step q r → Run p r

  -- `workers` goroutines over a buffer of `capacity`: the buffer is never exceeded, each worker is
  -- in one state, a parked worker means an empty open channel, and each item that was started is
  -- being processed or has been; items are started in the order in which they were accepted.
  pub record Inv (workers capacity : ℕ) (p : Pool T) : Type 0 where
    pub same_capacity : p.capacity ≡ capacity
    pub bounded : length p.queue ≤ capacity
    pub workers_conserved : p.polling + p.parked + length p.busy + p.exited ≡ workers
    pub parked_empty : 0 < p.parked → p.queue ≡ []
    pub parked_open : 0 < p.parked → (p.closed ≡ false) × (p.cancelled ≡ false)
    pub exit_reason : 0 < p.exited → p.cancelled ≡ false → (p.closed ≡ true) × (p.queue ≡ [])
    pub fifo : p.accepted ≡ p.started ++ p.queue
    pub items_conserved :
        (test : T → Bool) → count test p.started ≡ count test p.busy + count test p.finished

  Inv-start : (workers capacity : ℕ) → Inv workers capacity (start workers (new_pool capacity))
  unfolding start new_pool
  Inv-start workers capacity = record {
    same_capacity = refl;
    bounded = omega arith;
    workers_conserved = omega arith;
    parked_empty = λ h. refl;
    parked_open = λ h. absurd (omega arith);
    exit_reason = λ h. absurd (omega arith);
    fifo = refl;
    items_conserved = λ test. refl;
  }

  module _ (workers capacity : ℕ) where
    submit-Inv :
        (p p' : Pool T) (item : T) (n : ℕ)
        → p.parked ≡ n
        → submit p item ≡ sent p'
        → Inv workers capacity p
        → Inv workers capacity p'
    unfolding submit
    submit-Inv p p' item zero idle e v = ground (
      arith,
      length-append p.queue (item ∷ []),
      append_assoc p.started p.queue (item ∷ []),
      v.same_capacity,
    )
    submit-Inv p p' item (suc n) idle e v =
        let handed : p' ≡ record p {
          parked = n;
          busy = item ∷ p.busy;
          accepted = p.accepted ++ item ∷ [];
          started = p.started ++ item ∷ [];
        } =
          ground arith in
        let empty : p.queue ≡ [] = v.parked_empty (omega arith) in
        subst (Inv workers capacity) (sym handed) (record {
          same_capacity = v.same_capacity;
          bounded = v.bounded;
          workers_conserved = omega (arith, v.workers_conserved);
          parked_empty = λ h. empty;
          parked_open = λ h. v.parked_open (omega arith);
          exit_reason = v.exit_reason;
          fifo = ground (arith, v.fifo, append-nil p.started, append-nil (p.started ++ item ∷ []));
          items_conserved = λ test.
              omega (arith, v.items_conserved test, count-append test p.started (item ∷ []));
        })

    pub Step-Inv : {p q : Pool T} → Step p q → Inv workers capacity p → Inv workers capacity q
    Step-Inv (submits {p} {p'} item e) v = submit-Inv p p' item p.parked refl e v
    Step-Inv (take {p} item rest n q e) v = record {
      same_capacity = v.same_capacity;
      bounded = ground (arith, v.bounded);
      workers_conserved = ground (arith, v.workers_conserved);
      parked_empty = λ h. ground (arith, v.parked_empty h);
      parked_open = v.parked_open;
      exit_reason = λ h c. ground (arith, v.exit_reason h c);
      fifo = v.fifo ∙ rw q (sym (append_assoc p.started (item ∷ []) rest));
      items_conserved =
          λ test. omega (arith, v.items_conserved test, count-append test p.started (item ∷ []));
    }
    Step-Inv (park {p} n q o c e) v = ground (arith, v.items_conserved)
    Step-Inv (finish {p} before item after e) v = record {
      same_capacity = v.same_capacity;
      bounded = v.bounded;
      workers_conserved = omega (
        arith,
        v.workers_conserved,
        ap length e,
        length-append before (item ∷ after),
        length-append before after,
      );
      parked_empty = v.parked_empty;
      parked_open = v.parked_open;
      exit_reason = v.exit_reason;
      fifo = v.fifo;
      items_conserved = λ test. omega (
        arith,
        v.items_conserved test,
        ap (count test) e,
        count-append test before (item ∷ after),
        count-append test before after,
      );
    }
    Step-Inv (closes {p} o) v =
        unfold close in
        record {
          same_capacity = v.same_capacity;
          bounded = v.bounded;
          workers_conserved = omega (arith, v.workers_conserved);
          parked_empty = λ h. absurd (omega arith);
          parked_open = λ h. absurd (omega arith);
          exit_reason = λ h c. (refl, (v.exit_reason h c).1);
          fifo = v.fifo;
          items_conserved = v.items_conserved;
        }
    Step-Inv (cancels {p}) v =
        unfold cancel in
        record {
          same_capacity = v.same_capacity;
          bounded = v.bounded;
          workers_conserved = omega (arith, v.workers_conserved);
          parked_empty = λ h. absurd (omega arith);
          parked_open = λ h. absurd (omega arith);
          exit_reason = λ h c. cc;
          fifo = v.fifo;
          items_conserved = v.items_conserved;
        }
    Step-Inv (exit_closed {p} n q c e) v = record {
      same_capacity = v.same_capacity;
      bounded = v.bounded;
      workers_conserved = omega (arith, v.workers_conserved);
      parked_empty = v.parked_empty;
      parked_open = v.parked_open;
      exit_reason = λ h x. (c, q);
      fifo = v.fifo;
      items_conserved = v.items_conserved;
    }
    Step-Inv (exit_cancelled {p} n c e) v = record {
      same_capacity = v.same_capacity;
      bounded = v.bounded;
      workers_conserved = omega (arith, v.workers_conserved);
      parked_empty = v.parked_empty;
      parked_open = v.parked_open;
      exit_reason = λ h x. absurd (ground arith);
      fifo = v.fifo;
      items_conserved = v.items_conserved;
    }

    Run-keeps : {p q : Pool T} → Inv workers capacity p → Run p q → Inv workers capacity q
    Run-keeps v here = v
    Run-keeps v (next r s) = Step-Inv s (Run-keeps v r)

    -- Whatever submitters, workers, `Stop` and cancellation do, and in whatever order, the started
    -- pool keeps the invariant.
    pub Run-Inv : {p : Pool T} → Run (start workers (new_pool capacity)) p → Inv workers capacity p
    Run-Inv r = Run-keeps (Inv-start workers capacity) r
