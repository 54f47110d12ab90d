-- ===== src/Config/Settings.antt =====
-- What holds of the settings that load (gateway-go/internal/config/config.go).
use financial_ai_platform.Prelude.{
  ℕ, ◌*◌, ◌^◌, ◌<◌, ◌≡◌, ◌≢◌, refl, ap, ◌∙◌, ◌&&◌, ◌>>◌, fail_if, arith, Bool, true, false, Option,
  Text, lit, text_eq, text_eq_iff, Result-cases, ok, inl, inr, ℤ, pos, wrap, times,
}
use financial_ai_platform.Config.{
  Config, ConfigError, insecure_jwt_secret, insecure_admin_password, Environment, named_value,
  get_env, get_env_parsed, check_production, is_production, megabytes, read, load,
  insecure_default_jwt_secret, insecure_default_admin_password,
}

-- Both guards have let the settings through.
guarded :
    {A : Type 0} (a b : Bool) (e f : ConfigError) (c c' : A)
    → (fail_if a e >> (fail_if b f >> ok c)) ≡ ok c'
    → (a ≡ false) × (b ≡ false) × (c ≡ c')
guarded true b e f c c' h = absurd (cc)
guarded false true e f c c' h = absurd (cc)
guarded false false e f c c' h = (refl, refl, ground arith)

not_default :
    (s default : Text) (b : Bool) → b ≡ true → (b && text_eq s default) ≡ false → s ≢ default
not_default s default b on h same = ground (arith, text_eq_iff s default)

check_production-eq-ok :
    {F : Type 0} (cfg cfg' : Config F)
    → check_production cfg ≡ ok cfg'
    → cfg'.environment ≡ lit "production"
    → (cfg'.jwt_secret ≢ insecure_default_jwt_secret)
      × (cfg'.admin_password ≢ insecure_default_admin_password)
unfolding check_production
check_production-eq-ok cfg cfg' h production =
    let (secret, password, same) =
      guarded (is_production cfg && text_eq cfg.jwt_secret insecure_default_jwt_secret)
        (is_production cfg && text_eq cfg.admin_password insecure_default_admin_password)
        insecure_jwt_secret insecure_admin_password cfg cfg' h in
    let on : is_production cfg ≡ true =
      (text_eq_iff cfg.environment (lit "production")).1
        (ap (λ c. c.environment) same ∙ production) in
    (
      λ e.
          not_default cfg.jwt_secret insecure_default_jwt_secret (is_production cfg) on secret
            (ap (λ c. c.jwt_secret) same ∙ e),
      λ e.
          not_default cfg.admin_password insecure_default_admin_password (is_production cfg) on
            password (ap (λ c. c.admin_password) same ∙ e),
    )

module _ {F : Type 0} (parse_float : Text → Option F) (parse_duration : Text → Option ℤ)
    (five : F) where
  -- What loads in production has neither the default secret nor the default password of the admin.
  pub load_production :
      (env : Environment) (cfg : Config F)
      → load parse_float parse_duration five env ≡ ok cfg
      → cfg.environment ≡ lit "production"
      → (cfg.jwt_secret ≢ insecure_default_jwt_secret)
        × (cfg.admin_password ≢ insecure_default_admin_password)
  unfolding load
  load_production env cfg h production =
      elim (Result-cases (read parse_float parse_duration five env)) [
        | inl (c, e) ↦ check_production-eq-ok c cfg (ground arith) production
        | inr (x, e) ↦ absurd (ground arith)
      ]

  module _ (env env' : Environment)
      (alike : (key : Text) → named_value (env key) ≡ named_value (env' key)) where
    same_text : (key fallback : Text) → get_env env key fallback ≡ get_env env' key fallback
    unfolding get_env
    same_text key fallback = rw (alike key, get_env) refl

    same_parsed :
        {A : Type 0} (parse : Text → Option A) (key : Text) (fallback : A)
        → get_env_parsed parse env key fallback ≡ get_env_parsed parse env' key fallback
    unfolding get_env_parsed
    same_parsed parse key fallback = rw (alike key, get_env_parsed) refl

    -- A variable set to the empty text counts as not set: environments with the same non-empty values
    -- load the same settings, or fail alike.
    pub load_alike :
        load parse_float parse_duration five env ≡ load parse_float parse_duration five env'
    unfolding load read
    load_alike = simp (same_text, same_parsed)

-- The limit of an upload is exact up to 2 ^ 43 - 1 megabytes.
pub megabytes_exact : (mb : ℕ) → mb < 2 ^ 43 → megabytes (pos mb) ≡ pos (mb * 1048576)
unfolding megabytes times wrap
megabytes_exact mb h = ground arith
