-- ===== src/Handlers/Accounts/Identity.antt =====
-- From registration to the caller's own account, gateway-go/internal/handlers/auth.go.
use financial_ai_platform.Prelude.{◌≡◌, false, ◌||◌, Text, lit, is_empty, ok}
use financial_ai_platform.Auth.User.{User, no_user}
use financial_ai_platform.Auth.Service.{Service, Draw, register}
use financial_ai_platform.Handlers.Accounts.{Credentials, UserResponse, user_response}

-- A registration that was answered with 201.
record Created (s : Service) (store : s.Store) (d : Draw) (req : Credentials) (store' : s.Store)
    (view : UserResponse) : Type 0 where
  user : User
  filled : (is_empty req.email || is_empty req.password) ≡ false
  done : register s store d req.email req.password ≡ ok (store', user)
  seen : view ≡ user_response user

-- The account of an answer, without its hash, which no claim holds.
abbrev pub account : UserResponse → User
account view = record no_user { id = view.id; email = view.email; role = view.role }

abbrev pub bad_credentials : Text
bad_credentials = lit "invalid email or password"
