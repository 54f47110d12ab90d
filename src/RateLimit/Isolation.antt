-- ===== src/RateLimit/Isolation.antt =====
-- Each key has a bucket of its own, gateway-go/internal/ratelimit/limiter.go.
use financial_ai_platform.Prelude.{
  ℕ, ◌≡◌, refl, ap, ◌∙◌, Bool, Bool-cases, inl, inr, if◌then◌else◌, Option, some, List, [], ◌∷◌,
  Text, text_eq, text_eq_iff, get, get-put,
}
use financial_ai_platform.RateLimit.{TokenBucket, bucket_or_new, Limiter, new_limiter, allow}

module _ (t : TokenBucket) where
  -- The verdicts for one key among calls of `Allow` with many.
  unfoldable pub verdicts : Text → List (ℕ × Text) → Limiter t → List Bool
  verdicts k [] l = []
  verdicts k ((now, key) ∷ calls) l =
      let r = allow t now l key in
      let rest = verdicts k calls r.0 in if text_eq key k then r.1 ∷ rest else rest

  -- A lone bucket at the times of the calls for the key.
  unfoldable pub alone : Text → List (ℕ × Text) → t.Bucket → List Bool
  alone k [] b = []
  alone k ((now, key) ∷ calls) b =
      let r = t.allow_bucket now b in
      let used = r.1 ∷ alone k calls r.0 in
      let unused = alone k calls b in if text_eq key k then used else unused

  verdicts-alone :
      (k : Text) (calls : List (ℕ × Text)) (l : Limiter t)
      → verdicts k calls l ≡ alone k calls (bucket_or_new t (get l.limiters k))
  unfolding verdicts alone allow
  verdicts-alone k [] l = refl
  verdicts-alone k ((now, key) ∷ calls) l =
      let bucket = (t.allow_bucket now (bucket_or_new t (get l.limiters key))).0 in
      let read = get-put l.limiters key k bucket in
      let ih = verdicts-alone k calls (allow t now l key).0 in
      let choose = λ (b : Bool). if b then some bucket else get l.limiters k in
      let reread = λ (o : Option t.Bucket). alone k calls (bucket_or_new t o) in
      let spend = λ (j : Text).
        let r = t.allow_bucket now (bucket_or_new t (get l.limiters j)) in
        r.1 ∷ alone k calls r.0 in
      elim (Bool-cases (text_eq key k)) [
        | inl same ↦ rw same (
            ap (λ vs. (t.allow_bucket now (bucket_or_new t (get l.limiters key))).1 ∷ vs)
              (ih ∙ ap reread (read ∙ ap choose same))
            ∙ ap spend ((text_eq_iff key k).0 same))
        | inr other ↦ rw other (ih ∙ ap reread (read ∙ ap choose other))
      ]

  -- Whatever the calls with other keys, the verdicts for a key are those of a bucket of its own, which is
  -- used at the times of its calls alone.
  pub new_limiter-alone :
      (k : Text) (calls : List (ℕ × Text))
      → verdicts k calls (new_limiter t) ≡ alone k calls t.new_bucket
  unfolding get
  new_limiter-alone k calls = verdicts-alone k calls (new_limiter t)
