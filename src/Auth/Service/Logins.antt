-- ===== src/Auth/Service/Logins.antt =====
-- Who can log in, and what a refusal tells (gateway-go/internal/auth/service.go).
use financial_ai_platform.Prelude.{
  ℕ, ◌+◌, ◌≤◌, ◌≡◌, true, false, arith, ap, ◌∙◌, if◌then◌else◌, Bool-cases, ◌⊎◌, inl, inr,
  Result-cases, some, Text, ok, err,
}
use financial_ai_platform.Auth.User.{
  User, AuthError, role_user, user_not_found, invalid_credentials, sign_failed,
}
use financial_ai_platform.Auth.Repository.{same_email}
use financial_ai_platform.Auth.Token.{Claims, second, generate, claims_for, parse}
use financial_ai_platform.Auth.Token.Validity.{parse-generate}
use financial_ai_platform.Auth.Service.{Service, Draw, register, login}
use financial_ai_platform.Auth.Service.Accounts.{IsCreated, register-IsCreated}

-- A failing login is `ErrInvalidCredentials`, whether the address is unknown or the password wrong;
-- any other error is a failure to sign the token of an account whose password was right.
pub login-eq-err :
    (s : Service) (store : s.Store) (now : ℕ) (email password : Text) (e : AuthError)
    → login s store now email password ≡ err e
    → (e ≡ invalid_credentials)
      ⊎ ((u : User) × (s.find_by_email store email ≡ ok u)
          × (s.bcrypt.compare u.password_hash password ≡ true)
          × (e ≡ sign_failed))
unfolding login generate
login-eq-err s store now email password e h = elim (Result-cases (s.find_by_email store email)) [
  | inl (u, found) ↦ elim (Bool-cases (s.bcrypt.compare u.password_hash password)) [
    | inl right ↦ inr (u, found, right, ground arith)
    | inr wrong ↦ inl (ground arith)
  ]
  | inr (x, missing) ↦ inl (ground arith)
]

-- What `Create` is asked to store is found, under the fresh id of the draw, by its address.
find_by_email-IsCreated :
    (s : Service) (store store' : s.Store) (d : Draw) (u : User) (email password e : Text)
    → s.IsValid store
    → s.find_by_id store d.id ≡ err user_not_found
    → IsCreated s store d email password role_user store' u
    → s.find_by_email store' e ≡ (if same_email email e then ok u else s.find_by_email store e)
find_by_email-IsCreated s store store' d u email password e valid fresh c =
    ground
      (arith, c.shape, s.find_by_email-create store store' u e valid (rw c.shape fresh) c.stored)

module _ (s : Service) (store store' : s.Store) (d : Draw) (u : User) (email password : Text)
    (valid : s.IsValid store) (fresh : s.find_by_id store d.id ≡ err user_not_found)
    (registered : register s store d email password ≡ ok (store', u)) where
  created : IsCreated s store d email password role_user store' u
  created = register-IsCreated s store d email password store' u registered

  login_accepts :
      (now : ℕ) (spelling : Text)
      → same_email email spelling ≡ true
      → login s store' now spelling password ≡ generate s.jwt s.tokens now u
  unfolding login
  login_accepts now spelling same =
      let c = created in
      ground (
        arith,
        c.shape,
        find_by_email-IsCreated s store store' d u email password spelling valid fresh c,
        s.bcrypt.compare-generate d.salt password c.hash c.hashed,
      )

  -- After a registration under a fresh id, the password logs in under every equivalent spelling of
  -- the address, provided that the token can be signed; the token is accepted until a second before
  -- its reported expiry, and its claims carry the new id, the address and the role "user".
  pub login-register :
      (issued now : ℕ) (spelling token : Text)
      → same_email email spelling ≡ true
      → s.jwt.signed_string (claims_for s.jwt s.tokens issued u) s.tokens.secret ≡ some token
      → now + second ≤ issued + s.tokens.ttl
      → (login s store' issued spelling password ≡ ok (token, issued + s.tokens.ttl))
        × (c : Claims) × (parse s.jwt s.tokens now token ≡ ok c)
        × (c.user_id ≡ d.id)
        × (c.email ≡ email)
        × (c.role ≡ role_user)
  unfolding claims_for generate
  login-register issued now spelling token same signs early =
      let c = created in
      let generated : generate s.jwt s.tokens issued u ≡ ok (token, issued + s.tokens.ttl) =
        ground arith in
      (
        login_accepts issued spelling same ∙ generated,
        claims_for s.jwt s.tokens issued u,
        parse-generate s.jwt s.tokens u issued _ now token generated early,
        ap (λ v. v.id) c.shape,
        ap (λ v. v.email) c.shape,
        ap (λ v. v.role) c.shape,
      )

  -- The accounts of other addresses log in, or fail to, as before.
  pub login-register_ne :
      (now : ℕ) (e p : Text)
      → same_email email e ≡ false
      → login s store' now e p ≡ login s store now e p
  unfolding login
  login-register_ne now e p differs =
      let found = find_by_email-IsCreated s store store' d u email password e valid fresh created in
      ground arith
