-- ===== src/Worker/Drain.antt =====
-- What `Stop` guarantees (gateway-go/internal/worker/pool.go): it waits until all workers have exited.
use financial_ai_platform.Prelude.{
  ℕ, zero, suc, ◌+◌, ◌*◌, ◌<◌, ◌≡◌, refl, ap, ◌∙◌, ◌⊎◌, inl, inr, Bool, true, false, List, [], ◌∷◌,
  ◌++◌, arith, length, length-append, count,
}
use mathlib.Core.List.{append-nil}
use financial_ai_platform.Worker.{Pool, new_pool, start, submit, cancel}
use financial_ai_platform.Worker.Steps.{
  Step, submits, take, park, finish, closes, cancels, exit_closed, exit_cancelled, Run, here, next,
  Inv, Step-Inv, Run-Inv,
}

empty_of_length : {T : Type 0} (xs : List T) → length xs ≡ 0 → xs ≡ []
empty_of_length [] h = refl
empty_of_length (x ∷ xs) h = absurd (omega arith)

-- What is left to do after `Stop` has closed the channel.
abbrev pub work : {T : Type 0} → Pool T → ℕ
work p = 3 * length p.queue + 2 * length p.busy + p.polling

module _ {T : Type 0} (workers capacity : ℕ) where
  -- Once all workers have exited without a cancellation, the channel is closed and drained, nothing
  -- is being processed, and each accepted item has been processed as often as it was accepted.
  pub exited_drained :
      {p : Pool T}
      → Run (start workers (new_pool capacity)) p
      → 0 < workers
      → p.exited ≡ workers
      → p.cancelled ≡ false
      → (p.closed ≡ true)
        × (p.queue ≡ [])
        × (p.busy ≡ [])
        × ((test : T → Bool) → count test p.finished ≡ count test p.accepted)
  exited_drained {p} r some_worker gone kept =
      let v = Run-Inv workers capacity r in
      let (is_closed, drained) = v.exit_reason (omega arith) kept in
      let idle : p.busy ≡ [] = empty_of_length p.busy (omega (arith, v.workers_conserved)) in
      (
        is_closed,
        drained,
        idle,
        λ test. omega (
          arith,
          v.items_conserved test,
          ap (count test) idle,
          ap (count test) (v.fifo ∙ ap (◌++◌ p.started) drained ∙ append-nil p.started),
        ),
      )

  -- After the channel is closed, each step but a cancellation leaves less to do.
  pub Step-work :
      {p q : Pool T}
      → Inv workers capacity p
      → p.closed ≡ true
      → Step p q
      → (work q < work p) ⊎ (q ≡ cancel p)
  Step-work v c (submits {p} {p'} item e) = absurd (unfold submit in ground arith)
  Step-work v c (take {p} item rest n q e) = inl (omega (arith, ap length q))
  Step-work v c (park {p} n q o x e) = absurd (ground arith)
  Step-work v c (finish {p} before item after e) =
      inl (
        omega (arith, ap length e, length-append before (item ∷ after), length-append before after))
  Step-work v c (closes {p} o) = absurd (ground arith)
  Step-work v c cancels = inr refl
  Step-work v c (exit_closed {p} n q x e) = inl (omega arith)
  Step-work v c (exit_cancelled {p} n x e) = inl (omega arith)

  Run-cons : {p q r : Pool T} → Step p q → Run q r → Run p r
  Run-cons s here = next here s
  Run-cons s (next r t) = next (Run-cons s r) t

  -- A closed pool has exited whole, or has a step of a worker that leaves less to do.
  abbrev Advances : Pool T → Type 0
  Advances p =
      (p.exited ≡ workers)
      ⊎ ((q : Pool T) × Step p q
          × (q.closed ≡ true)
          × (q.cancelled ≡ p.cancelled)
          × (work q < work p))

  advance :
      (p : Pool T) (queue busy : List T) (polling : ℕ)
      → p.queue ≡ queue
      → p.busy ≡ busy
      → p.polling ≡ polling
      → Inv workers capacity p
      → p.closed ≡ true
      → Advances p
  advance p queue (item ∷ busy) polling eq eb ep v c =
      inr (_, finish [] item busy eb, c, refl, omega (arith, ap length eb))
  advance p [] [] (suc n) eq eb ep v c = inr (_, exit_closed n eq c ep, c, refl, omega arith)
  advance p (item ∷ rest) [] (suc n) eq eb ep v c =
      inr (_, take item rest n eq ep, c, refl, omega (arith, ap length eq))
  advance p queue [] zero eq eb ep v c = inl (all_exited (unparked p.parked refl))
    where
      unparked : (n : ℕ) → p.parked ≡ n → p.parked ≡ 0
      unparked zero e = e
      unparked (suc n) e = absurd (cc ((v.parked_open (omega arith)).0))

      all_exited : p.parked ≡ 0 → p.exited ≡ workers
      all_exited none_parked = omega (arith, v.workers_conserved, ap length eb)

  drain :
      (fuel : ℕ) (p : Pool T)
      → Inv workers capacity p
      → p.closed ≡ true
      → work p < fuel
      → (q : Pool T) × Run p q × (q.exited ≡ workers) × (q.cancelled ≡ p.cancelled)
  drain zero p v c bound = absurd (omega arith)
  drain (suc fuel) p v c bound = elim (advance p p.queue p.busy p.polling refl refl refl v c) [
    | inl gone ↦ (p, here, gone, refl)
    | inr (q, s, closed, kept, less) ↦
        let (r, run, gone, same) =
          drain fuel q (Step-Inv workers capacity s v) closed (omega arith) in
        (r, Run-cons s run, gone, same ∙ kept)
  ]

  -- After `Stop` has closed the channel, some run of the workers, with no cancellation in it, ends
  -- with all of them exited: `Stop` is never stuck for good.
  pub close_drains :
      {p : Pool T}
      → Run (start workers (new_pool capacity)) p
      → p.closed ≡ true
      → (q : Pool T) × Run p q × (q.exited ≡ workers) × (q.cancelled ≡ p.cancelled)
  close_drains {p} r c = drain (suc (work p)) p (Run-Inv workers capacity r) c (omega arith)
