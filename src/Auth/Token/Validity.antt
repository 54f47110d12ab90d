-- ===== src/Auth/Token/Validity.antt =====
-- Which tokens are accepted, for how long (gateway-go/internal/auth/token.go).
use financial_ai_platform.Prelude.{ℕ, ◌+◌, ◌≤◌, ◌≡◌, refl, some, arith, Text, ok, err}
use financial_ai_platform.Auth.User.{User, invalid_token, AuthError}
use financial_ai_platform.Auth.Token.{
  Jwt, TokenService, other, second, key_for, claims_for, generate, parse,
}

module _ (j : Jwt) (s : TokenService) where
  generate-eq-ok :
      (u : User) (issued expires : ℕ) (token : Text)
      → generate j s issued u ≡ ok (token, expires)
      → (j.signed_string (claims_for j s issued u) s.secret ≡ some token)
        × (expires ≡ issued + s.ttl)
  unfolding generate
  generate-eq-ok u issued expires token h = ground arith

  -- A generated token is parsed back to the claims of its user until a second before the expiry that
  -- `Generate` reported, or later.
  pub parse-generate :
      (u : User) (issued expires now : ℕ) (token : Text)
      → generate j s issued u ≡ ok (token, expires)
      → now + second ≤ expires
      → parse j s now token ≡ ok (claims_for j s issued u)
  unfolding parse claims_for
  parse-generate u issued expires now token h early =
      let (signed, e) = generate-eq-ok u issued expires token h in
      ground (
        arith,
        j.lt-new_numeric_date (issued + s.ttl),
        j.parse-signed (claims_for j s issued u) s.secret token (key_for s) now signed refl,
      )

  -- From the reported expiry on, a generated token is refused.
  pub parse_after_expiry :
      (u : User) (issued expires now : ℕ) (token : Text)
      → generate j s issued u ≡ ok (token, expires)
      → expires ≤ now
      → parse j s now token ≡ err invalid_token
  unfolding parse claims_for
  parse_after_expiry u issued expires now token h late =
      let (signed, e) = generate-eq-ok u issued expires token h in
      ground (
        arith,
        j.new_numeric_date-le (issued + s.ttl),
        j.parse_expired (claims_for j s issued u) s.secret token (key_for s) now signed,
      )

  -- A token that names a method other than HMAC is refused, whatever it claims.
  pub parse_other_method :
      (token name : Text) (now : ℕ)
      → j.method_of token ≡ some (other name)
      → parse j s now token ≡ err invalid_token
  unfolding parse
  parse_other_method token name now h =
      ground (arith, j.parse_no_key token (other name) (key_for s) now h refl)

  -- Every refusal is the same error.
  pub parse-eq-err :
      (token : Text) (now : ℕ) (e : AuthError) → parse j s now token ≡ err e → e ≡ invalid_token
  unfolding parse
  parse-eq-err token now e h = ground arith
