-- ===== src/Auth/Middleware.antt =====
-- The guards of the routes (gateway-go/internal/auth/middleware.go), and the chain of the admin
-- routes (gateway-go/internal/httpserver/routes.go).
pub mod Guards
use financial_ai_platform.Prelude.{
  ℕ, Bool, false, ◌||◌, List, [], ◌∷◌, Option, none, some, if◌then◌else◌, Text, lit, text_eq,
  is_empty, cut_prefix, Result, ok, err,
}
use financial_ai_platform.Auth.User.{Role, role_admin, AuthError}
use financial_ai_platform.Auth.Token.{Claims, Jwt, TokenService, parse}

-- What the guards read and write of a request's gin.Context: the Authorization header ("" if there
-- is none) and the value under the key "auth.claims".
pub record Context : Type 0 where
  pub authorization : Text
  pub claims : Option Claims

abbrev pub status_unauthorized : ℕ
status_unauthorized = 401

abbrev pub status_forbidden : ℕ
status_forbidden = 403

abbrev pub status_internal_server_error : ℕ
status_internal_server_error = 500

abbrev pub bad_header : Text
bad_header = lit "missing or malformed Authorization header"

abbrev pub bad_token : Text
bad_token = lit "invalid or expired token"

abbrev pub bad_role : Text
bad_role = lit "insufficient role"

abbrev pub unwired : Text
unwired = lit "RequireRole used without Authenticate"

unfoldable pub current_claims : Context → Option Claims
current_claims c = c.claims

unfoldable pub is_allowed : Role → List Role → Bool
is_allowed role [] = false
is_allowed role (r ∷ allowed) = text_eq role r || is_allowed role allowed

-- A handler yields a response of type `R`. `abort` is `AbortWithStatusJSON` with an error text;
-- `next` is the rest of the chain, which `c.Next()` runs.
module _ {R : Type 0} (abort : ℕ → Text → R) where
  abbrev pub Handler : Type 0
  Handler = Context → R

  verified : Result AuthError Claims → (Context → R) → Context → R
  verified (err e) next c = abort status_unauthorized bad_token
  verified (ok claims) next c = next (record c { claims = some claims })

  with_token : Jwt → TokenService → ℕ → Option Text → (Context → R) → Context → R
  unfolding verified
  with_token j tokens now none next c = abort status_unauthorized bad_header
  with_token j tokens now (some token) next c =
      if is_empty token
      then abort status_unauthorized bad_header
      else verified (parse j tokens now token) next c

  unfoldable pub authenticate : Jwt → TokenService → ℕ → (Context → R) → Context → R
  unfolding with_token
  authenticate j tokens now next c =
      with_token j tokens now (cut_prefix c.authorization (lit "Bearer ")) next c

  unfoldable pub require_role : List Role → (Context → R) → Context → R
  unfolding current_claims is_allowed
  require_role allowed next c = elim (current_claims c) [
    | none ↦ abort status_internal_server_error unwired
    | some claims ↦
        if is_allowed claims.role allowed then next c else abort status_forbidden bad_role
  ]

  -- admin.Use(authMW.Authenticate(), authMW.RequireRole(auth.RoleAdmin))
  unfoldable pub admin_route : Jwt → TokenService → ℕ → (Context → R) → Context → R
  admin_route j tokens now next = authenticate j tokens now (require_role (role_admin ∷ []) next)
