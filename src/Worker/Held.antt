-- ===== src/Worker/Held.antt =====
-- What the items in the channel and with the workers have in common (gateway-go/internal/worker/pool.go).
use financial_ai_platform.Prelude.{
  ℕ, zero, suc, ◌≡◌, refl, sym, ap, subst, arith, List, [], ◌∷◌, ◌++◌, All, length, length-append,
}
use financial_ai_platform.Worker.{Pool, submit, sent, close, cancel}
use financial_ai_platform.Worker.Steps.{
  Step, submits, take, park, finish, closes, cancels, exit_closed, exit_cancelled,
}

module _ {T : Type 0} (P : T → Type 0) where
  pub All-append : (xs ys : List T) → All P xs → All P ys → All P (xs ++ ys)
  All-append [] ys h g = g
  All-append (x ∷ xs) ys (p, h) g = (p, All-append xs ys h g)

  -- The list without one of its elements, and that element.
  pub All-split :
      (xs : List T) (x : T) (ys : List T) → All P (xs ++ (x ∷ ys)) → P x × All P (xs ++ ys)
  All-split [] x ys (p, h) = (p, h)
  All-split (y ∷ xs) x ys (q, h) = let (p, rest) = All-split xs x ys h in (p, (q, rest))

  -- The items that the pool has accepted and not finished.
  abbrev pub Held : Pool T → Type 0
  Held p = All P p.queue × All P p.busy

  pub submit-Held :
      (p q : Pool T) (item : T) (n : ℕ)
      → p.parked ≡ n
      → submit p item ≡ sent q
      → P item
      → Held p
      → Held q
  unfolding submit
  submit-Held p q item zero idle e good h =
      let shape : q
          ≡ record p { queue = p.queue ++ item ∷ []; accepted = p.accepted ++ item ∷ [] } =
        ground arith in
      subst Held (sym shape) (All-append p.queue (item ∷ []) h.0 (good, tt), h.1)
  submit-Held p q item (suc n) idle e good h =
      let shape : q ≡ record p {
        parked = n;
        busy = item ∷ p.busy;
        accepted = p.accepted ++ item ∷ [];
        started = p.started ++ item ∷ [];
      } =
        ground arith in
      subst Held (sym shape) (h.0, (good, h.1))

  length-accepted-submit :
      (p q : Pool T) (item : T) (n : ℕ)
      → p.parked ≡ n
      → submit p item ≡ sent q
      → length q.accepted ≡ suc (length p.accepted)
  unfolding submit
  length-accepted-submit p q item zero idle e = ground (arith, length-append p.accepted (item ∷ []))
  length-accepted-submit p q item (suc n) idle e =
      ground (arith, length-append p.accepted (item ∷ []))

  -- A step that accepts nothing brings no new item in.
  pub Step-Held : {p q : Pool T} → Step p q → q.accepted ≡ p.accepted → Held p → Held q
  Step-Held (submits {p} {p'} item e) same h =
      absurd (omega (arith, length-accepted-submit p p' item p.parked refl e, ap length same))
  Step-Held (take {p} item rest n q e) same h =
      let held = subst (All P) q h.0 in (held.1, (held.0, h.1))
  Step-Held (park {p} n q o c e) same h = h
  Step-Held (finish {p} before item after e) same h =
      (h.0, (All-split before item after (subst (All P) e h.1)).1)
  Step-Held (closes {p} o) same h = unfold close in h
  Step-Held (cancels {p}) same h = unfold cancel in h
  Step-Held (exit_closed {p} n q c e) same h = h
  Step-Held (exit_cancelled {p} n c e) same h = h
