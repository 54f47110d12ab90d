-- ===== src/Auth/Token.antt =====
-- Access tokens (gateway-go/internal/auth/token.go) over the JWT library, a parameter.
pub mod Validity
use financial_ai_platform.Prelude.{
  ℕ, ◌+◌, ◌≤◌, ◌<◌, ◌≡◌, Bool, true, false, Option, none, some, if◌then◌else◌, Text, lit, Result,
  ok, err,
}
use financial_ai_platform.Auth.User.{User, Role, AuthError, invalid_token, sign_failed}

abbrev pub issuer : Text
issuer = lit "financial-ai-platform/gateway-go"

-- The registered claims that the code sets, and the platform's own.
pub record Claims : Type 0 where
  pub issued_by : Text
  pub subject : Text
  pub issued_at : ℕ
  pub expires_at : ℕ
  pub user_id : Text
  pub email : Text
  pub role : Role

-- The dynamic type of `t.Method`, with the algorithm's name.
pub data SigningMethod : Type 0 where
  hmac : Text → SigningMethod
  other : Text → SigningMethod

abbrev pub hs256 : SigningMethod
hs256 = hmac (lit "HS256")

-- One second, in nanoseconds.
abbrev pub second : ℕ
second = 1000000000

-- github.com/golang-jwt/jwt/v5, as documented: times are kept to the second; a token names its
-- method, the key function is asked for the key, and without a key the token is refused; a token
-- that was signed with that key is accepted, with its claims, until it expires.
pub record Jwt : Type 0 where
  pub new_numeric_date : ℕ → ℕ
  pub signed_string : Claims → Text → Option Text
  pub method_of : Text → Option SigningMethod
  pub parse_with_claims : Text → (SigningMethod → Option Text) → ℕ → Option (Claims × Bool)
  pub new_numeric_date-le : (t : ℕ) → new_numeric_date t ≤ t
  pub lt-new_numeric_date : (t : ℕ) → t < new_numeric_date t + second
  pub parse-signed :
      (c : Claims) (secret token : Text) (key : SigningMethod → Option Text) (now : ℕ)
      → signed_string c secret ≡ some token
      → key hs256 ≡ some secret
      → now < c.expires_at
      → parse_with_claims token key now ≡ some (c, true)
  pub parse_expired :
      (c : Claims) (secret token : Text) (key : SigningMethod → Option Text) (now : ℕ)
      → signed_string c secret ≡ some token
      → c.expires_at ≤ now
      → parse_with_claims token key now ≡ none
  pub parse_no_key :
      (token : Text) (m : SigningMethod) (key : SigningMethod → Option Text) (now : ℕ)
      → method_of token ≡ some m
      → key m ≡ none
      → parse_with_claims token key now ≡ none

-- Durations are nanoseconds, and not negative.
pub record TokenService : Type 0 where
  pub secret : Text
  pub ttl : ℕ

-- The function that `Parse` hands to the library: only HMAC methods get the secret.
key_for : TokenService → SigningMethod → Option Text
key_for s (hmac name) = some s.secret
key_for s (other name) = none

accept : Option (Claims × Bool) → Result AuthError Claims
accept none = err invalid_token
accept (some (claims, valid)) = if valid then ok claims else err invalid_token

module _ (j : Jwt) where
  -- The claims that `Generate` builds for a user at a time.
  unfoldable pub claims_for : TokenService → ℕ → User → Claims
  claims_for s now user = record {
    issued_by = issuer;
    subject = user.id;
    issued_at = j.new_numeric_date now;
    expires_at = j.new_numeric_date (now + s.ttl);
    user_id = user.id;
    email = user.email;
    role = user.role;
  }

  unfoldable pub generate : TokenService → ℕ → User → Result AuthError (Text × ℕ)
  unfolding claims_for
  generate s now user = elim (j.signed_string (claims_for s now user) s.secret) [
    | none ↦ err sign_failed
    | some signed ↦ ok (signed, now + s.ttl)
  ]

  unfoldable pub parse : TokenService → ℕ → Text → Result AuthError Claims
  unfolding accept key_for
  parse s now token_string = accept (j.parse_with_claims token_string (key_for s) now)
