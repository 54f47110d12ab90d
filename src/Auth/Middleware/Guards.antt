-- ===== src/Auth/Middleware/Guards.antt =====
-- Which requests reach a guarded handler (gateway-go/internal/auth/middleware.go).
use financial_ai_platform.Prelude.{
  ℕ, ◌+◌, ◌≤◌, ◌≡◌, ◌≢◌, ◌⊎◌, inl, inr, refl, ◌∙◌, List, [], ◌∷◌, ◌++◌, Option, none, some, arith,
  if◌then◌else◌, Option-cases, Result-cases, Text, lit, text_eq, cut_prefix, cut_prefix-append,
  cut_prefix_sound, ok,
}
use financial_ai_platform.Auth.User.{User, Role, role_admin}
use financial_ai_platform.Auth.Token.{
  Claims, Jwt, TokenService, second, generate, claims_for, parse,
}
use financial_ai_platform.Auth.Token.Validity.{parse-generate}
use financial_ai_platform.Auth.Middleware.{
  Context, bad_header, bad_token, bad_role, unwired, status_unauthorized, status_forbidden,
  status_internal_server_error, is_allowed, authenticate, require_role, admin_route,
}

abbrev pub bearer : Text → Text
bearer token = lit "Bearer " ++ token

module _ {R : Type 0} (abort : ℕ → Text → R) (next : Context → R) where
  module _ (j : Jwt) (tokens : TokenService) (now : ℕ) (c : Context) where
    -- The request carries this non-empty bearer token, and `Parse` accepts it with these claims.
    abbrev pub Presents : Text → Claims → Type 0
    Presents token claims =
        (token ≢ []) × (c.authorization ≡ bearer token) × (parse j tokens now token ≡ ok claims)

    token_of_bearer :
        (token : Text)
        → c.authorization ≡ bearer token
        → cut_prefix c.authorization (lit "Bearer ") ≡ some token
    token_of_bearer token header = rw header (cut_prefix-append (lit "Bearer ") token)

    pub authenticate-Presents :
        (token : Text) (claims : Claims)
        → Presents token claims
        → authenticate abort j tokens now next c ≡ next (record c { claims = some claims })
    unfolding authenticate
    authenticate-Presents [] claims p = absurd (p.0 refl)
    authenticate-Presents (t ∷ token) claims p = ground (arith, token_of_bearer (t ∷ token) p.1)

    abbrev pub Authenticates : Type 0
    Authenticates =
        ((token : Text) × (claims : Claims) × Presents token claims
          × (authenticate abort j tokens now next c ≡ next (record c { claims = some claims })))
        ⊎ (((token : Text) (claims : Claims) → ¬ Presents token claims)
            × ((message : Text) × (authenticate abort j tokens now next c
                  ≡ abort status_unauthorized message)))

    -- A request reaches the handler exactly with a non-empty bearer token that `Parse` accepts, and
    -- then with the token's claims on the context; every other request is answered 401.
    pub authenticate_cases : Authenticates
    unfolding authenticate
    authenticate_cases = by_token (cut_prefix c.authorization (lit "Bearer ")) refl
      where
        by_token :
            (found : Option Text)
            → cut_prefix c.authorization (lit "Bearer ") ≡ found
            → Authenticates
        by_token none e =
            inr ((λ token claims p. cc (token_of_bearer token p.1)), (bad_header, ground arith))
        by_token (some []) e = inr (
          (λ token claims p. p.0 (ground (arith, token_of_bearer token p.1))),
          (bad_header, ground arith),
        )
        by_token (some (t ∷ token)) e = elim (Result-cases (parse j tokens now (t ∷ token))) [
          | inl (claims, accepted) ↦ inl (
            t ∷ token,
            claims,
            ((λ q. cc), cut_prefix_sound c.authorization (lit "Bearer ") (t ∷ token) e, accepted),
            ground arith,
          )
          | inr (x, refused) ↦ inr (
            (λ token' claims p. ground (arith, token_of_bearer token' p.1)),
            (bad_token, ground arith),
          )
        ]

module _ {R : Type 0} (abort : ℕ → Text → R) (next : Context → R) where
  require_admin :
      (c : Context) (claims : Claims)
      → c.claims ≡ some claims
      → require_role abort (role_admin ∷ []) next c
        ≡ (if text_eq claims.role role_admin then next c else abort status_forbidden bad_role)
  unfolding require_role
  require_admin c claims e = ground arith

  -- `RequireRole` behind no `Authenticate` answers 500; behind it, it runs the handler if the role is
  -- one of those allowed, and answers 403 if not.
  pub require_role_cases :
      (allowed : List Role) (c : Context)
      → ((c.claims ≡ none)
          × (require_role abort allowed next c ≡ abort status_internal_server_error unwired))
        ⊎ ((claims : Claims) × (c.claims ≡ some claims)
            × (require_role abort allowed next c ≡ (
                if is_allowed claims.role allowed
                then next c
                else abort status_forbidden bad_role)))
  unfolding require_role
  require_role_cases allowed c = elim (Option-cases c.claims) [
    | inl e ↦ inl (e, ground arith)
    | inr (claims, e) ↦ inr (claims, e, ground arith)
  ]

  -- With a token that was generated for a user and has not expired, an admin route runs its
  -- handler, with the user's claims, if the user's role is "admin", and answers 403 if not.
  pub admin_route-generate :
      (j : Jwt) (tokens : TokenService) (c : Context) (u : User) (issued expires now : ℕ)
      (token : Text)
      → generate j tokens issued u ≡ ok (token, expires)
      → token ≢ []
      → now + second ≤ expires
      → c.authorization ≡ bearer token
      → admin_route abort j tokens now next c ≡ (
          if text_eq u.role role_admin
          then next (record c { claims = some (claims_for j tokens issued u) })
          else abort status_forbidden bad_role)
  unfolding admin_route claims_for
  admin_route-generate j tokens c u issued expires now token generated named early header =
      authenticate-Presents abort (require_role abort (role_admin ∷ []) next) j tokens now c token
        (claims_for j tokens issued u)
        (named, header, parse-generate j tokens u issued expires now token generated early)
      ∙ require_admin _ (claims_for j tokens issued u) refl
