-- ===== src/RateLimit/Tests.antt =====
-- A limiter with buckets of one token that is never refilled.
use financial_ai_platform.Prelude.{
  ℕ, zero, suc, ◌≡◌, Bool, true, false, List, [], ◌∷◌, Text, lit, text_eq,
}
use financial_ai_platform.RateLimit.{TokenBucket, new_limiter}
use financial_ai_platform.RateLimit.Isolation.{verdicts, alone, new_limiter-alone}

abbrev take_token : ℕ → ℕ × Bool
take_token zero = (zero, false)
take_token (suc n) = (n, true)

abbrev single : TokenBucket
single = record { Bucket = ℕ; new_bucket = 1; allow_bucket = λ now b. take_token b }

abbrev calls : List (ℕ × Text)
calls = (1, lit "a") ∷ (2, lit "b") ∷ (3, lit "a") ∷ []

-- The second call of "a" is refused; "b" is not held up by it.
new_limiter-alone_example : verdicts single (lit "a") calls (new_limiter single) ≡ true ∷ false ∷ []
unfolding alone text_eq
new_limiter-alone_example = new_limiter-alone single (lit "a") calls
