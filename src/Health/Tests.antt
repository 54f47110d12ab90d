-- ===== src/Health/Tests.antt =====
-- A gateway with two checks.
use financial_ai_platform.Prelude.{
  ℕ, zero, suc, ◌≡◌, refl, Option, none, some, List, [], ◌∷◌, Text, lit, put, text_eq,
}
use financial_ai_platform.Health.{Checker, new_readiness, register, handle}
use financial_ai_platform.Health.Verdict.{register_all}

-- The context is the number of the services that are up.
ml_check : ℕ → Option Text
ml_check zero = some (lit "connection refused")
ml_check (suc n) = none

abbrev two_checks : List (Text × Checker ℕ)
two_checks = (lit "ml-service", ml_check) ∷ (lit "redis", λ c. none) ∷ []

down : (handle (register_all two_checks new_readiness) 0).code ≡ 503
unfolding handle register put text_eq ml_check
down = refl
