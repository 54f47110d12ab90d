-- ===== src/Auth/Service.antt =====
-- Registration, seeding and login (gateway-go/internal/auth/service.go), over any repository that
-- meets the contract of `UserRepository`.
pub mod Accounts
pub mod Logins
pub mod Admins
use financial_ai_platform.Prelude.{
  ℕ, Bool, not, List, if◌then◌else◌, ltb, Text, length, Result, ok, err, ◌>>=◌, ◌>>◌, fail_if,
}
use financial_ai_platform.Auth.User.{
  User, Role, role_user, role_admin, AuthError, user_not_found, user_exists, invalid_credentials,
  invalid_email, weak_password, invalid_token, hash_failed, sign_failed,
}
use financial_ai_platform.Auth.Repository.{UserRepository}
use financial_ai_platform.Auth.Password.{Bcrypt, hash_password, verify_password}
use financial_ai_platform.Auth.Token.{Jwt, TokenService, generate}

abbrev pub min_password_length : ℕ
min_password_length = 8

-- The two fields of the Go struct, and what the package takes from other libraries:
-- `parse_address` tells whether net/mail's `ParseAddress` returns no error.
pub record Service : Type 1 where
  pub repo : UserRepository
  pub open repo use *
  pub tokens : TokenService
  pub bcrypt : Bcrypt
  pub jwt : Jwt
  pub parse_address : Text → Bool

-- What one call draws from outside: `uuid.NewString()`, bcrypt's salt, `time.Now()`.
pub record Draw : Type 0 where
  pub id : Text
  pub salt : ℕ
  pub now : ℕ

abbrev pub new_user : Draw → Text → Text → Role → User
new_user d email hash role = record {
  id = d.id;
  email = email;
  password_hash = hash;
  role = role;
  created_at = d.now;
}

module _ (s : Service) where
  pub create_user : s.Store → Draw → Text → Text → Role → Result AuthError (s.Store × User)
  unfolding hash_password
  create_user store d email password role = do
    fail_if (not (s.parse_address email)) invalid_email
    fail_if (ltb (length password) min_password_length) weak_password
    hash ← hash_password s.bcrypt d.salt password
    store' ← s.create store (new_user d email hash role)
    ok (store', new_user d email hash role)

  unfoldable pub register : s.Store → Draw → Text → Text → Result AuthError (s.Store × User)
  unfolding create_user
  register store d email password = create_user store d email password role_user

  abbrev seed_missing : s.Store → Draw → Text → Text → AuthError → Result AuthError s.Store
  unfolding create_user
  seed_missing store d email password user_not_found =
      create_user store d email password role_admin >>= λ r. ok r.0
  seed_missing store d email password e = err e

  unfoldable pub seed_admin : s.Store → Draw → Text → Text → Result AuthError s.Store
  unfolding create_user
  seed_admin store d email password = elim (s.find_by_email store email) [
    | ok _ ↦ ok store
    | err e ↦ seed_missing store d email password e
  ]

  -- `now` is the time at which the token is issued.
  unfoldable pub login : s.Store → ℕ → Text → Text → Result AuthError (Text × ℕ)
  unfolding verify_password
  login store now email password = elim (s.find_by_email store email) [
    | err _ ↦ err invalid_credentials
    | ok user ↦
        if verify_password s.bcrypt user.password_hash password
        then generate s.jwt s.tokens now user
        else err invalid_credentials
  ]

  unfoldable pub list_users : s.Store → List User
  list_users store = s.list_all store
