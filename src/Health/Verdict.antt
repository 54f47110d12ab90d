-- ===== src/Health/Verdict.antt =====
-- What /readyz answers (gateway-go/internal/health/readiness.go).
use financial_ai_platform.Prelude.{
  ◌≡◌, refl, sym, ap, ◌∙◌, ◌↔◌, ◌⊎◌, if◌then◌else◌, text_eq, text_eq_refl, arith, Bool, true, false,
  Option, none, some, List, [], ◌∷◌, Text, text_eq_iff, Dict, get, put, get-put, IsDistinct,
  put-IsDistinct, inl, inr,
}
use financial_ai_platform.Health.{
  Checker, Readiness, new_readiness, status_ok, status_service_unavailable, message, passes,
  register, check_loop, handle,
}

passes_inv : (o : Option Text) (ready : Bool) → passes o ready ≡ true → (o ≡ none) × (ready ≡ true)
passes_inv none ready h = (refl, h)
passes_inv (some e) ready h = absurd (cc)

picked :
    {A : Type 0} (b : Bool) (x y : A) (o : Option A)
    → (if b then some x else o) ≡ some y
    → (x ≡ y) ⊎ (o ≡ some y)
picked true x y o h = inl (cc)
picked false x y o h = inr h

module _ {C : Type 0} where
  abbrev pub register_all : List (Text × Checker C) → Readiness C → Readiness C
  register_all [] r = r
  register_all ((name, check) ∷ rest) r = register_all rest (register r name check)

  register_all-IsDistinct :
      (named : List (Text × Checker C)) (r : Readiness C)
      → IsDistinct r.checks
      → IsDistinct (register_all named r).checks
  unfolding register
  register_all-IsDistinct [] r h = h
  register_all-IsDistinct ((name, check) ∷ rest) r h =
      register_all-IsDistinct rest (register r name check) (put-IsDistinct r.checks name check h)

  module _ (c : C) where
    abbrev pub result_of : Option (Checker C) → Option Text → Option Text
    result_of none old = old
    result_of (some check) old = some (message (check c))

    get-check_loop :
        (checks : Dict (Checker C)) (results : Dict Text) (ready : Bool) (k : Text)
        → IsDistinct checks
        → get (check_loop c checks results ready).0 k ≡ result_of (get checks k) (get results k)
    unfolding check_loop get
    get-check_loop [] results ready k h = refl
    get-check_loop ((name, check) ∷ checks) results ready k h =
        let rest =
          get-check_loop checks (put results name (message (check c))) (passes (check c) ready) k
            h.1 in
        ground (arith, rest, get-put results name k (message (check c)), text_eq_iff name k, h.0)

    -- Every check passes.
    abbrev pub AllPass : Dict (Checker C) → Type 0
    AllPass checks = (k : Text) (check : Checker C) → get checks k ≡ some check → check c ≡ none

    check_loop-AllPass :
        (checks : Dict (Checker C)) (results : Dict Text) (ready : Bool)
        → IsDistinct checks
        → (check_loop c checks results ready).1 ≡ true
        → (ready ≡ true) × AllPass checks
    unfolding check_loop get
    check_loop-AllPass [] results ready h passed = (passed, λ k check e. absurd (ground arith))
    check_loop-AllPass ((name, check) ∷ checks) results ready h passed =
        let (first, rest) =
          check_loop-AllPass checks (put results name (message (check c))) (passes (check c) ready)
            h.1 passed in
        let (here, on) = passes_inv (check c) ready first in
        (
          on,
          λ k f e. elim (picked (text_eq name k) check f (get checks k) e) [
            | inl same ↦ ap (λ g. g c) (sym same) ∙ here
            | inr later ↦ rest k f later
          ],
        )

    AllPass-check_loop :
        (checks : Dict (Checker C)) (results : Dict Text) (ready : Bool)
        → IsDistinct checks
        → ready ≡ true
        → AllPass checks
        → (check_loop c checks results ready).1 ≡ true
    unfolding check_loop get
    AllPass-check_loop [] results ready h on pass = on
    AllPass-check_loop ((name, check) ∷ checks) results ready h on pass =
        let here : check c ≡ none = pass name check (rw (text_eq_refl name) refl) in
        let later : AllPass checks =
          λ k f e. pass k f (ground (arith, e, text_eq_iff name k, h.0)) in
        AllPass-check_loop checks (put results name (message (check c))) (passes (check c) ready)
          h.1 (rw here on) later

  ok_of_code :
      (c : C) (checks : Dict (Checker C))
      → (if (check_loop c checks [] true).1 then status_ok else status_service_unavailable)
        ≡ status_ok
      → (check_loop c checks [] true).1 ≡ true
  ok_of_code c checks e = ground arith

  -- After any registrations, the answer is 200 exactly if every registered check passes, and it has for
  -- each registered name, and for no other, "ok" or the error of its check.
  pub handle_cases :
      (named : List (Text × Checker C)) (c : C)
      → (((handle (register_all named new_readiness) c).code ≡ status_ok)
          ↔ AllPass c (register_all named new_readiness).checks)
        × ((k : Text)
            → get (handle (register_all named new_readiness) c).checks k
              ≡ result_of c (get (register_all named new_readiness).checks k) none)
  unfolding handle get
  handle_cases named c =
      let checks = (register_all named new_readiness).checks in
      let distinct = register_all-IsDistinct named new_readiness tt in
      (
        (
          λ e. (check_loop-AllPass c checks [] true distinct (ok_of_code c checks e)).1,
          λ pass.
              ap (λ b. if b then status_ok else status_service_unavailable)
                (AllPass-check_loop c checks [] true distinct refl pass),
        ),
        λ k. get-check_loop c checks [] true k distinct,
      )
