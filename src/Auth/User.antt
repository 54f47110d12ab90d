-- ===== src/Auth/User.antt =====
-- Accounts and roles (gateway-go/internal/auth/user.go, role.go) and the package's errors
-- (repository.go, service.go, token.go).
use financial_ai_platform.Prelude.{ℕ, Bool, ◌||◌, Text, lit, text_eq}

-- `type Role string`: a claim or a variable may hold any text.
abbrev pub Role : Type 0
Role = Text

abbrev pub role_user : Role
role_user = lit "user"

abbrev pub role_admin : Role
role_admin = lit "admin"

unfoldable pub is_valid : Role → Bool
is_valid r = text_eq r role_user || text_eq r role_admin

-- Times are nanoseconds since the epoch.
pub record User : Type 0 where
  pub id : Text
  pub email : Text
  pub password_hash : Text
  pub role : Role
  pub created_at : ℕ

-- The zero value `User{}`.
abbrev pub no_user : User
no_user = record {
  id = lit "";
  email = lit "";
  password_hash = lit "";
  role = lit "";
  created_at = 0;
}

-- The last two are errors that the code passes on from bcrypt and from the JWT library.
pub data AuthError : Type 0 where
  user_not_found user_exists invalid_credentials invalid_email weak_password : AuthError
  invalid_token hash_failed sign_failed : AuthError
