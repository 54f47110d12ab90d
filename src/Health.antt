-- ===== src/Health.antt =====
-- Readiness (gateway-go/internal/health/readiness.go): named checks, and the answer of /readyz. A check
-- is a function of the request's context with its error, or `none`.
pub mod Verdict
mod Tests
use financial_ai_platform.Prelude.{
  ℕ, Bool, true, false, if◌then◌else◌, Option, none, some, [], ◌∷◌, Text, lit, Dict, put,
}

abbrev pub Checker : Type 0 → Type 0
Checker C = C → Option Text

pub record Readiness (C : Type 0) : Type 0 where
  pub checks : Dict (Checker C)

abbrev pub new_readiness : {C : Type 0} → Readiness C
new_readiness = record { checks = [] }

pub record ReadinessReply : Type 0 where
  pub code : ℕ
  pub status : Text
  pub checks : Dict Text

abbrev pub status_ok : ℕ
status_ok = 200

abbrev pub status_service_unavailable : ℕ
status_service_unavailable = 503

abbrev pub message : Option Text → Text
message none = lit "ok"
message (some e) = e

abbrev pub passes : Option Text → Bool → Bool
passes none ready = ready
passes (some e) ready = false

abbrev pub answer : Dict Text × Bool → ReadinessReply
answer (results, ready) = record {
  code = if ready then status_ok else status_service_unavailable;
  status = if ready then lit "ready" else lit "not_ready";
  checks = results;
}

module _ {C : Type 0} where
  unfoldable pub register : Readiness C → Text → Checker C → Readiness C
  register r name check = record { checks = put r.checks name check }

  -- The loop over the copy of the checks, with the results and `ready` so far.
  unfoldable pub check_loop : C → Dict (Checker C) → Dict Text → Bool → Dict Text × Bool
  check_loop c [] results ready = (results, ready)
  check_loop c ((name, check) ∷ checks) results ready =
      check_loop c checks (put results name (message (check c))) (passes (check c) ready)

  unfoldable pub handle : Readiness C → C → ReadinessReply
  unfolding check_loop
  handle r c = answer (check_loop c r.checks [] true)
