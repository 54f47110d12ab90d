-- ===== src/HttpServer/Access.antt =====
-- Who reaches which handler, gateway-go/internal/httpserver/routes.go.
use financial_ai_platform.Prelude.{
  ℕ, ◌≡◌, ◌≢◌, ◌↔◌, refl, sym, ◌∙◌, arith, true, Bool-cases, inl, inr, List, [], ◌∷◌, some, Text,
  text_eq, text_eq_iff, ok,
}
use financial_ai_platform.Auth.User.{role_admin}
use financial_ai_platform.Auth.Token.{Claims, Jwt, TokenService, parse}
use financial_ai_platform.Auth.Middleware.{Context, is_allowed, require_role}
use financial_ai_platform.Auth.Middleware.Guards.{bearer, authenticate-Presents, authenticate_cases}
use financial_ai_platform.RateLimit.{TokenBucket, Limiter, allow, middleware}
use financial_ai_platform.HttpServer.{
  Endpoint, healthz, readyz, register, login, me, upload_document, get_document, summarize, search,
  rag_query, admin_ping, admin_evaluate, admin_users, admin_documents, admin_jobs, admin_stats,
  Guard, limit, authentication, admin, v1, authenticated, admin_group, guards, Request, run_chain,
  serve,
}

-- Who is to reach an endpoint: the probes are open, accounts are made and used without a token, and the
-- admin routes are for admins.
pub data Access : Type 0 where
  anyone anyone_limited holder administrator : Access

abbrev pub access : Endpoint → Access
access healthz = anyone
access readyz = anyone
access register = anyone_limited
access login = anyone_limited
access admin_ping = administrator
access admin_evaluate = administrator
access admin_users = administrator
access admin_documents = administrator
access admin_jobs = administrator
access admin_stats = administrator
access _ = holder

-- How a chain ended, with the limiter as it left it.
pub data Outcome (L : Type 0) : Type 0 where
  ran : L → Context → Outcome L
  aborted : L → ℕ → Text → Outcome L

module _ (t : TokenBucket) (j : Jwt) (tokens : TokenService) (now : ℕ) (l : Limiter t)
    (req : Request) (l' : Limiter t) (c' : Context) where
  -- The bucket of the client let the request pass.
  abbrev pub Limited : Type 0
  Limited = (allow t now l req.client_ip).1 ≡ true

  -- The limiter after the call.
  abbrev pub spent : Limiter t
  spent = (allow t now l req.client_ip).0

  -- The request carries a valid token with these claims.
  abbrev pub Carries : Claims → Type 0
  Carries claims =
      (token : Text) × (token ≢ [])
      × (req.context.authorization ≡ bearer token)
      × (parse j tokens now token ≡ ok claims)

  abbrev pub with_claims : Claims → Context
  with_claims claims = record req.context { claims = some claims }

  -- The handler runs with this limiter and this context.
  abbrev pub RunsWith : Limiter t → Context → Type 0
  RunsWith l1 c = (l' ≡ l1) × (c' ≡ c)

  abbrev pub IsAdmitted : Access → Type 0
  IsAdmitted anyone = RunsWith l req.context
  IsAdmitted anyone_limited = Limited × RunsWith spent req.context
  IsAdmitted holder =
      Limited × ((claims : Claims) × Carries claims × RunsWith spent (with_claims claims))
  IsAdmitted administrator =
      Limited
      × ((claims : Claims) × Carries claims
          × (claims.role ≡ role_admin)
          × RunsWith spent (with_claims claims))

  abbrev chain : List Guard → Limiter t → Context → Outcome (Limiter t)
  chain gs = run_chain t j tokens aborted gs now req.client_ip ran

  open_iff : (l1 : Limiter t) (c : Context) → (chain [] l1 c ≡ ran l' c') ↔ RunsWith l1 c
  unfolding run_chain
  open_iff l1 c = (λ h. (cc, cc), λ (same, same_c). rw (same, same_c) refl)

  limited_iff :
      (gs : List Guard)
      → (chain (limit ∷ gs) l req.context ≡ ran l' c')
        ↔ (Limited × (chain gs spent req.context ≡ ran l' c'))
  unfolding run_chain middleware allow
  limited_iff gs = elim (Bool-cases (allow t now l req.client_ip).1) [
    | inl passed ↦ (λ h. (passed, ground arith), λ h. ground arith)
    | inr refused ↦ (λ h. absurd (ground arith), λ h. absurd (ground arith))
  ]

  authenticated_iff :
      (gs : List Guard) (l1 : Limiter t)
      → (chain (authentication ∷ gs) l1 req.context ≡ ran l' c')
        ↔ ((claims : Claims) × Carries claims × (chain gs l1 (with_claims claims) ≡ ran l' c'))
  unfolding run_chain
  authenticated_iff gs l1 =
      let go = λ (c1 : Context). chain gs l1 c1 in
      (
        λ h. elim (authenticate_cases (aborted l1) go j tokens now req.context) [
          | inl (token, claims, presents, same) ↦
              (claims, (token, presents.0, presents.1, presents.2), sym same ∙ h)
          | inr (none_presented, refused) ↦ absurd (cc (refused.1))
        ],
        λ (claims, carries, h).
            authenticate-Presents (aborted l1) go j tokens now req.context carries.0 claims
              (carries.1, carries.2, carries.3)
            ∙ h,
      )

  authorized_iff :
      (gs : List Guard) (l1 : Limiter t) (claims : Claims)
      → (chain (admin ∷ gs) l1 (with_claims claims) ≡ ran l' c')
        ↔ ((claims.role ≡ role_admin) × (chain gs l1 (with_claims claims) ≡ ran l' c'))
  unfolding run_chain require_role is_allowed
  authorized_iff gs l1 claims = elim (Bool-cases (text_eq claims.role role_admin)) [
    | inl same ↦
        (λ h. ((text_eq_iff claims.role role_admin).0 same, ground arith), λ h. ground arith)
    | inr other ↦ (
      λ h. absurd (ground arith),
      λ h. absurd (ground (arith, text_eq_iff claims.role role_admin, h.0)),
    )
  ]

  v1_iff : (chain v1 l req.context ≡ ran l' c') ↔ IsAdmitted anyone_limited
  v1_iff = (
    λ h. let (passed, rest) = (limited_iff []).0 h in (passed, (open_iff spent req.context).0 rest),
    λ (passed, ends). (limited_iff []).1 (passed, (open_iff spent req.context).1 ends),
  )

  holder_iff : (chain authenticated l req.context ≡ ran l' c') ↔ IsAdmitted holder
  holder_iff = (
    λ h.
        let (passed, rest) = (limited_iff (authentication ∷ [])).0 h in
        let (claims, carries, last) = (authenticated_iff [] spent).0 rest in
        (passed, (claims, carries, (open_iff spent (with_claims claims)).0 last)),
    λ (passed, (claims, carries, ends)). (limited_iff (authentication ∷ [])).1 (
      passed,
      (authenticated_iff [] spent).1
          (claims, carries, (open_iff spent (with_claims claims)).1 ends),
    ),
  )

  administrator_iff : (chain admin_group l req.context ≡ ran l' c') ↔ IsAdmitted administrator
  administrator_iff = (
    λ h.
        let (passed, rest) = (limited_iff (authentication ∷ admin ∷ [])).0 h in
        let (claims, carries, middle) = (authenticated_iff (admin ∷ []) spent).0 rest in
        let (is_admin, last) = (authorized_iff [] spent claims).0 middle in
        (passed, (claims, carries, is_admin, (open_iff spent (with_claims claims)).0 last)),
    λ (passed, (claims, carries, is_admin, ends)). (limited_iff (authentication ∷ admin ∷ [])).1 (
      passed,
      (authenticated_iff (admin ∷ []) spent).1 (
        claims,
        carries,
        (authorized_iff [] spent claims).1 (is_admin, (open_iff spent (with_claims claims)).1 ends),
      ),
    ),
  )

  -- The handler of an endpoint runs exactly for a request that may reach it: a probe is answered to anyone;
  -- any other handler runs if the bucket of the client's address lets the request pass, and but for
  -- registration and login if it carries a valid token, whose claims the handler then sees, and on the admin
  -- routes only if their role is "admin".
  pub serve-IsAdmitted :
      (e : Endpoint)
      → (serve t j tokens aborted e now ran l req ≡ ran l' c') ↔ IsAdmitted (access e)
  unfolding serve guards
  serve-IsAdmitted healthz = open_iff l req.context
  serve-IsAdmitted readyz = open_iff l req.context
  serve-IsAdmitted register = v1_iff
  serve-IsAdmitted login = v1_iff
  serve-IsAdmitted me = holder_iff
  serve-IsAdmitted upload_document = holder_iff
  serve-IsAdmitted get_document = holder_iff
  serve-IsAdmitted summarize = holder_iff
  serve-IsAdmitted search = holder_iff
  serve-IsAdmitted rag_query = holder_iff
  serve-IsAdmitted admin_ping = administrator_iff
  serve-IsAdmitted admin_evaluate = administrator_iff
  serve-IsAdmitted admin_users = administrator_iff
  serve-IsAdmitted admin_documents = administrator_iff
  serve-IsAdmitted admin_jobs = administrator_iff
  serve-IsAdmitted admin_stats = administrator_iff
