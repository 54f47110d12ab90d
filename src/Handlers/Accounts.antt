-- ===== src/Handlers/Accounts.antt =====
-- Registration, login and the caller's own account, gateway-go/internal/handlers/auth.go.
pub mod Identity
use financial_ai_platform.Prelude.{
  ℕ, Bool, ◌||◌, if◌then◌else◌, Option, none, some, Text, lit, is_empty, ℤ, truncated_quotient,
  Result, ok, err,
}
use financial_ai_platform.Auth.User.{
  User, Role, AuthError, user_not_found, user_exists, invalid_credentials, invalid_email,
  weak_password, invalid_token, hash_failed, sign_failed,
}
use financial_ai_platform.Auth.Token.{Claims, second}
use financial_ai_platform.Auth.Middleware.{Context, current_claims}
use financial_ai_platform.Auth.Service.{Service, Draw, register, login}
use financial_ai_platform.Handlers.{
  Reply, json, error_json, status_ok, status_created, status_bad_request, status_unauthorized,
  status_conflict, status_internal_server_error, internal_error, no_claims,
}

-- The body of `Register` and of `Login`; a missing field is the empty text.
pub record Credentials : Type 0 where
  pub email : Text
  pub password : Text

pub record UserResponse : Type 0 where
  pub id : Text
  pub email : Text
  pub role : Text

pub record LoginResponse : Type 0 where
  pub access_token : Text
  pub token_type : Text
  pub expires_in : ℤ

-- `ShouldBindJSON`, given what the JSON decoder yields, with `binding:"required"` on both fields.
unfoldable pub bind : Option Credentials → Option Credentials
bind none = none
bind (some body) = if is_empty body.email || is_empty body.password then none else some body

unfoldable pub write_auth_error : {V : Type 0} → AuthError → Reply V
write_auth_error user_exists =
    error_json status_conflict (lit "an account with this email already exists")
write_auth_error invalid_email = error_json status_bad_request (lit "invalid email address")
write_auth_error weak_password =
    error_json status_bad_request (lit "password must be at least 8 characters")
write_auth_error invalid_credentials =
    error_json status_unauthorized (lit "invalid email or password")
write_auth_error user_not_found = error_json status_internal_server_error internal_error
write_auth_error invalid_token = error_json status_internal_server_error internal_error
write_auth_error hash_failed = error_json status_internal_server_error internal_error
write_auth_error sign_failed = error_json status_internal_server_error internal_error

abbrev pub bad_body : Text
bad_body = lit "invalid request body"

abbrev pub user_response : User → UserResponse
user_response user = record { id = user.id; email = user.email; role = user.role }

-- `int64(time.Until(expiresAt).Seconds())`, where `now` is the reading that `Until` takes.
abbrev pub login_response : ℕ → Text → ℕ → LoginResponse
login_response now token expires_at = record {
  access_token = token;
  token_type = lit "bearer";
  expires_in = truncated_quotient expires_at now second;
}

module _ (s : Service) where
  registered : s.Store → Result AuthError (s.Store × User) → s.Store × Reply UserResponse
  unfolding write_auth_error
  registered store (err e) = (store, write_auth_error e)
  registered store (ok (store', user)) = (store', json status_created (user_response user))

  unfoldable pub register_user : s.Store → Draw → Option Credentials → s.Store × Reply UserResponse
  unfolding bind registered
  register_user store d body = elim (bind body) [
    | none ↦ (store, error_json status_bad_request bad_body)
    | some req ↦ registered store (register s store d req.email req.password)
  ]

  logged_in : ℕ → Result AuthError (Text × ℕ) → Reply LoginResponse
  unfolding write_auth_error
  logged_in now (err e) = write_auth_error e
  logged_in now (ok (token, expires_at)) = json status_ok (login_response now token expires_at)

  -- The token is issued at the first reading of the clock, and the response made at the second.
  unfoldable pub login_user : s.Store → ℕ → ℕ → Option Credentials → Reply LoginResponse
  unfolding bind logged_in
  login_user store issued now body = elim (bind body) [
    | none ↦ error_json status_bad_request bad_body
    | some req ↦ logged_in now (login s store issued req.email req.password)
  ]

abbrev pub claims_response : Claims → UserResponse
claims_response claims = record { id = claims.user_id; email = claims.email; role = claims.role }

unfoldable pub me : Context → Reply UserResponse
unfolding current_claims
me c = elim (current_claims c) [
  | none ↦ error_json status_internal_server_error no_claims
  | some claims ↦ json status_ok (claims_response claims)
]
