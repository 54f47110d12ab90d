-- ===== src/RateLimit.antt =====
-- The limiter of requests by key (gateway-go/internal/ratelimit/limiter.go). The token bucket of
-- golang.org/x/time/rate is a parameter.
pub mod Isolation
mod Tests
use financial_ai_platform.Prelude.{
  ℕ, suc, Bool, true, false, if◌then◌else◌, Option, none, some, [], Text, lit, Dict, get, put,
}

-- rate.NewLimiter with the rate and the burst of the configuration, and its `Allow` at a time.
pub record TokenBucket : Type 1 where
  pub Bucket : Type 0
  pub new_bucket : Bucket
  pub allow_bucket : ℕ → Bucket → Bucket × Bool

abbrev pub status_too_many_requests : ℕ
status_too_many_requests = 429

abbrev pub limit_exceeded : Text
limit_exceeded = lit "rate limit exceeded"

-- The limiter of a key, made on the first call.
abbrev pub bucket_or_new : (t : TokenBucket) → Option t.Bucket → t.Bucket
bucket_or_new t none = t.new_bucket
bucket_or_new t (some b) = b

module _ (t : TokenBucket) where
  pub record Limiter : Type 0 where
    pub limiters : Dict t.Bucket
    pub rejections_total : ℕ

  abbrev pub new_limiter : Limiter
  new_limiter = record { limiters = []; rejections_total = 0 }

  unfoldable pub allow : ℕ → Limiter → Text → Limiter × Bool
  allow now l key =
      let (bucket, allowed) = t.allow_bucket now (bucket_or_new t (get l.limiters key)) in
      (record l { limiters = put l.limiters key bucket }, allowed)

  -- `next` is the rest of the chain; `abort` answers with a status and a message.
  unfoldable pub middleware :
      {R : Type 0} → (Limiter → ℕ → Text → R) → (Limiter → R) → ℕ → Limiter → Text → R
  unfolding allow
  middleware abort next now l key =
      let (l', allowed) = allow now l key in
      if allowed
      then next l'
      else abort (record l' { rejections_total = suc l'.rejections_total }) status_too_many_requests
          limit_exceeded
