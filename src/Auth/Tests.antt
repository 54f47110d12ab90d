-- ===== src/Auth/Tests.antt =====
-- The theorems of package auth (gateway-go/internal/auth) at concrete inputs.
use financial_ai_platform.Prelude.{
  ℕ, ◌+◌, ◌≡◌, refl, [], ◌∷◌, none, arith, Text, lit, text_eq, ok, err, to_lower, trim_space, get,
  put,
}
use financial_ai_platform.Auth.User.{role_user, user_not_found, invalid_credentials}
use financial_ai_platform.Auth.Repository.{
  MemoryUserRepository, normalize_email, create, find_by_email, find_by_id, list_all,
}
use financial_ai_platform.Auth.Repository.Index.{new-IsIndexed}
use financial_ai_platform.Auth.Token.{Claims, claims_for, parse}
use financial_ai_platform.Auth.Service.{register, seed_admin, login}
use financial_ai_platform.Auth.Service.Logins.{login-register}
use financial_ai_platform.Auth.Service.Admins.{here, next, admins, admins-seed_admin}
use financial_ai_platform.Auth.Middleware.{Context}
use financial_ai_platform.Auth.Middleware.Guards.{bearer}
use financial_ai_platform.Auth.Fixtures.{
  spelled_jwt, hour, service, no_accounts, draw_ann, draw_root, ann, root, with_ann, with_root,
  ann_signed_up, ann_fresh, encode, sign, plain_compare,
}

seed_root :
    seed_admin service no_accounts draw_root (lit "root@x.io") (lit "battery staple") ≡ ok with_root
unfolding seed_admin find_by_email create put get normalize_email to_lower trim_space
seed_root = refl

root_missing : find_by_email no_accounts (lit "root@x.io") ≡ err user_not_found
unfolding find_by_email get
root_missing = refl

ann_found : find_by_email with_ann (lit "ANN@x.io ") ≡ ok ann
unfolding find_by_email get normalize_email to_lower trim_space text_eq
ann_found = refl

wrong_password : login service with_ann 0 (lit "ann@x.io") (lit "horse") ≡ err invalid_credentials
unfolding login find_by_email get normalize_email to_lower trim_space text_eq plain_compare
wrong_password = refl

login-register_example :
    (login service with_ann hour (lit "ann@X.io") (lit "correct horse")
      ≡ ok (encode (claims_for spelled_jwt service.tokens hour ann) (lit "k1"), hour + hour))
    × (c : Claims) × (parse spelled_jwt service.tokens hour
          (encode (claims_for spelled_jwt service.tokens hour ann) (lit "k1"))
        ≡ ok c)
    × (c.user_id ≡ lit "u1")
    × (c.email ≡ lit "Ann@x.io")
    × (c.role ≡ role_user)
unfolding sign normalize_email to_lower trim_space text_eq
login-register_example =
    login-register service no_accounts with_ann draw_ann ann (lit "Ann@x.io") (lit "correct horse")
      new-IsIndexed ann_fresh ann_signed_up hour hour (lit "ann@X.io") _ refl refl (omega arith)

abbrev with_both : MemoryUserRepository
with_both = record {
  by_id = (lit "u0", root) ∷ (lit "u1", ann) ∷ [];
  by_eml = (lit "root@x.io", lit "u0") ∷ (lit "ann@x.io", lit "u1") ∷ [];
}

root_then_ann :
    register service with_root draw_ann (lit "Ann@x.io") (lit "correct horse") ≡ ok (with_both, ann)
unfolding register create put get normalize_email to_lower trim_space text_eq
root_then_ann = refl

ann_fresh_later : find_by_id with_root (lit "u1") ≡ err user_not_found
unfolding find_by_id get text_eq
ann_fresh_later = refl

root_fresh : find_by_id no_accounts (lit "u0") ≡ err user_not_found
unfolding find_by_id get
root_fresh = refl

admins-seed_admin_example : admins service with_both ≡ 1
unfolding list_all
admins-seed_admin_example =
    admins-seed_admin service no_accounts with_root with_both draw_root (lit "root@x.io")
      (lit "battery staple") refl root_fresh root_missing seed_root
      (next here draw_ann ann (lit "Ann@x.io") (lit "correct horse") ann_fresh_later root_then_ann)

-- Responses as a status and a text.
abbrev reply : ℕ → Text → ℕ × Text
reply status message = (status, message)

abbrev welcome : Context → ℕ × Text
welcome c = (200, lit "pong")

abbrev ann_token : Text
ann_token = encode (claims_for spelled_jwt service.tokens 0 ann) (lit "k1")

abbrev from_ann : Context
from_ann = record { authorization = bearer ann_token; claims = none }
