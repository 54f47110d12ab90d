-- ===== src/Gateway/Startup.antt =====
-- What a gateway that has started can rely on, gateway-go/cmd/gateway/main.go.
use financial_ai_platform.Prelude.{
  ℕ, get, [], ◌+◌, ◌≤◌, ◌≡◌, ◌≢◌, ◌⊎◌, inl, inr, refl, sym, ap, ◌∙◌, arith, Bool-cases, some, Text,
  lit, text_eq, text_eq_iff, Result-cases, ok, err,
}
use financial_ai_platform.Auth.User.{role_admin, user_not_found}
use financial_ai_platform.Auth.Repository.{
  MemoryUserRepository, new_memory_user_repository, find_by_id, find_by_email, list_all,
}
use financial_ai_platform.Auth.Repository.Index.{new-IsIndexed}
use financial_ai_platform.Auth.Token.{Claims, claims_for, second, parse}
use financial_ai_platform.Auth.Service.{Draw, new_user, seed_admin, login}
use financial_ai_platform.Auth.Service.Admins.{
  admins, Registers, login-seed_admin, admins-seed_admin,
}
use financial_ai_platform.Config.{
  Config, Environment, load, insecure_default_jwt_secret, insecure_default_admin_password,
}
use financial_ai_platform.Config.Settings.{load_production}
use financial_ai_platform.Gateway.{Outside, Gateway, natural, auth_service, assemble, start}

assemble-eq-ok :
    {F : Type 0} (o : Outside F) (cfg : Config F) (accounts : MemoryUserRepository) (g : Gateway F)
    → assemble o cfg accounts ≡ ok g
    → (g.config ≡ cfg) × (g.accounts ≡ accounts)
unfolding assemble
assemble-eq-ok o cfg accounts g h = (ground arith, ground arith)

-- In production neither the secret nor the password of the admin is the known default.
abbrev pub IsSafe : {F : Type 0} → Config F → Type 0
IsSafe cfg =
    (cfg.environment ≢ lit "production")
    ⊎ ((cfg.jwt_secret ≢ insecure_default_jwt_secret)
        × (cfg.admin_password ≢ insecure_default_admin_password))

module _ {F : Type 0} (o : Outside F) (env : Environment) (d : Draw) (g : Gateway F)
    (started : start o env d ≡ ok g) where
  abbrev Seeds : Config F → MemoryUserRepository → Type 0
  Seeds cfg accounts =
      seed_admin (auth_service o cfg) new_memory_user_repository d cfg.admin_email
        cfg.admin_password
      ≡ ok accounts

  -- The calls that a start has made.
  start-calls :
      (load o.parse_float o.parse_duration o.five env ≡ ok g.config) × Seeds g.config g.accounts
  unfolding start
  start-calls = elim (Result-cases (load o.parse_float o.parse_duration o.five env)) [
    | inr (e, f) ↦ absurd (ground arith)
    | inl (cfg, f) ↦
        elim (Result-cases (
          seed_admin (auth_service o cfg) new_memory_user_repository d cfg.admin_email
            cfg.admin_password)) [
              | inr (e, h) ↦ absurd (ground arith)
              | inl (accounts, h) ↦
                  let assembled : assemble o cfg accounts ≡ ok g = ground arith in
                  let (same_cfg, same_accounts) = assemble-eq-ok o cfg accounts g assembled in
                  (f ∙ ap ok (sym same_cfg), rw (same_cfg, same_accounts) h)
            ]
  ]

  empty_id : find_by_id new_memory_user_repository d.id ≡ err user_not_found
  unfolding find_by_id get
  empty_id = refl

  empty_email : (e : Text) → find_by_email new_memory_user_repository e ≡ err user_not_found
  unfolding find_by_email get
  empty_email e = refl

  start-IsSafe : IsSafe g.config
  start-IsSafe = elim (Bool-cases (text_eq g.config.environment (lit "production"))) [
    | inl same ↦ inr (
        load_production o.parse_float o.parse_duration o.five env g.config start-calls.0
          ((text_eq_iff g.config.environment (lit "production")).0 same))
    | inr other ↦ inl (λ e. ground (arith, text_eq_iff g.config.environment (lit "production")))
  ]

  -- Once the gateway has started, the password of the configuration logs its admin in, if the token can be
  -- signed; until a second before its expiry the token is accepted, with the role "admin"; whatever
  -- registrations follow, there is no other admin; and in production neither the secret nor the password
  -- is the known default.
  pub start-login :
      (issued now : ℕ) (token : Text) (later : MemoryUserRepository)
      → o.jwt.signed_string
          (claims_for o.jwt
            (auth_service o g.config).tokens
            issued
            (new_user d g.config.admin_email [] role_admin))
          g.config.jwt_secret
        ≡ some token
      → now + second ≤ issued + natural g.config.jwt_ttl
      → Registers (auth_service o g.config) g.accounts later
      → (login
            (auth_service o g.config)
            g.accounts
            issued
            g.config.admin_email
            g.config.admin_password
          ≡ ok (token, issued + natural g.config.jwt_ttl))
        × ((c : Claims) × (parse o.jwt (auth_service o g.config).tokens now token ≡ ok c)
            × (c.user_id ≡ d.id)
            × (c.role ≡ role_admin))
        × IsSafe g.config
        × (admins (auth_service o g.config) later ≡ 1)
  unfolding list_all
  start-login issued now token later signs early r =
      let s = auth_service o g.config in
      let seeded = start-calls.1 in
      let missing = empty_email g.config.admin_email in
      let (logs_in, claims, accepted, named, is_admin) =
        login-seed_admin s new_memory_user_repository g.accounts d g.config.admin_email
          g.config.admin_password token issued now new-IsIndexed empty_id missing seeded signs
          early in
      (
        logs_in,
        (claims, accepted, named, is_admin),
        start-IsSafe,
        admins-seed_admin s new_memory_user_repository g.accounts later d g.config.admin_email
            g.config.admin_password refl empty_id missing seeded r,
      )
