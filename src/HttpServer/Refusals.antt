-- ===== src/HttpServer/Refusals.antt =====
-- How the guards of a route end, whatever its handler answers (gateway-go/internal/httpserver/routes.go).
use financial_ai_platform.Prelude.{
  ℕ, suc, ◌≡◌, ◌⊎◌, inl, inr, refl, ◌∙◌, arith, Bool-cases, List, [], ◌∷◌, some, Text,
}
use financial_ai_platform.Auth.User.{role_admin}
use financial_ai_platform.Auth.Token.{Claims, Jwt, TokenService}
use financial_ai_platform.Auth.Middleware.{
  Context, require_role, is_allowed, current_claims, bad_role,
}
use financial_ai_platform.Auth.Middleware.Guards.{authenticate-Presents, authenticate_cases}
use financial_ai_platform.RateLimit.{TokenBucket, Limiter, allow, middleware, limit_exceeded}
use financial_ai_platform.HttpServer.{
  Endpoint, healthz, readyz, register, login, me, upload_document, get_document, summarize, search,
  rag_query, admin_ping, admin_evaluate, admin_users, admin_documents, admin_jobs, admin_stats,
  Guard, limit, authentication, admin, v1, authenticated, admin_group, guards, run_chain,
}
use financial_ai_platform.HttpServer.Access.{Outcome, ran, aborted}

-- Too many requests, unauthorized, forbidden.
abbrev pub IsRefusal : ℕ → Type 0
IsRefusal code = (code ≡ 429) ⊎ (code ≡ 401) ⊎ (code ≡ 403)

module _ (t : TokenBucket) (j : Jwt) (tokens : TokenService) (now : ℕ) (ip : Text) {R : Type 0}
    (abort : Limiter t → ℕ → Text → R) (handler : Limiter t → Context → R) where
  abbrev run_to : List Guard → Limiter t → Context → R
  run_to gs l c = run_chain t j tokens abort gs now ip handler l c

  abbrev ends : List Guard → Limiter t → Context → Outcome (Limiter t)
  ends gs l c = run_chain t j tokens aborted gs now ip ran l c

  -- The same chain, whatever its handler answers: it runs the handler or aborts with a refusal.
  abbrev Ends : List Guard → Limiter t → Context → Type 0
  Ends gs l c =
      ((l' : Limiter t) × (c' : Context) × (ends gs l c ≡ ran l' c')
        × (run_to gs l c ≡ handler l' c'))
      ⊎ ((l' : Limiter t) × (code : ℕ) × (message shown : Text) × (ends gs l c
            ≡ aborted l' code message)
          × (run_to gs l c ≡ abort l' code shown)
          × IsRefusal code)

  -- A chain that goes on as another ends as that one.
  continue :
      (gs rest : List Guard) (l l1 : Limiter t) (c c1 : Context)
      → ends gs l c ≡ ends rest l1 c1
      → run_to gs l c ≡ run_to rest l1 c1
      → Ends rest l1 c1
      → Ends gs l c
  continue gs rest l l1 c c1 same runs (inl (l', c', e, f)) = inl (l', c', same ∙ e, runs ∙ f)
  continue gs rest l l1 c c1 same runs (inr (l', code, message, shown, e, f, refusal)) =
      inr (l', code, message, shown, same ∙ e, runs ∙ f, refusal)

  open-Ends : (l : Limiter t) (c : Context) → Ends [] l c
  unfolding run_chain
  open-Ends l c = inl (l, c, refl, refl)

  limit-Ends :
      (gs : List Guard) (l : Limiter t) (c : Context)
      → ((l' : Limiter t) → Ends gs l' c)
      → Ends (limit ∷ gs) l c
  unfolding run_chain middleware
  limit-Ends gs l c rest = elim (Bool-cases (allow t now l ip).1) [
    | inl passed ↦
        let l1 = (allow t now l ip).0 in
        continue (limit ∷ gs) gs l l1 c c (ground arith) (ground arith) (rest l1)
    | inr refused ↦
        let l1 = (allow t now l ip).0 in
        inr (
          record l1 { rejections_total = suc l1.rejections_total },
          429,
          limit_exceeded,
          limit_exceeded,
          ground arith,
          ground arith,
          inl refl,
        )
  ]

  authentication-Ends :
      (gs : List Guard) (l : Limiter t) (c : Context)
      → ((claims : Claims) → Ends gs l (record c { claims = some claims }))
      → Ends (authentication ∷ gs) l c
  unfolding run_chain
  authentication-Ends gs l c rest =
      elim (authenticate_cases (aborted l) (λ c1. ends gs l c1) j tokens now c) [
        | inl (token, claims, presents, same) ↦
            continue (authentication ∷ gs) gs l l c (record c { claims = some claims }) same
              (authenticate-Presents (abort l) (λ c1. run_to gs l c1) j tokens now c token claims
                presents)
              (rest claims)
        | inr (absent, (message, refused)) ↦
            elim (authenticate_cases (abort l) (λ c1. run_to gs l c1) j tokens now c) [
              | inl (token, claims, presents, same) ↦ absurd (absent token claims presents)
              | inr (_, (shown, refused')) ↦
                  inr (l, 401, message, shown, refused, refused', inr (inl refl))
            ]
      ]

  admin-Ends :
      (gs : List Guard) (l : Limiter t) (c : Context) (claims : Claims)
      → c.claims ≡ some claims
      → Ends gs l c
      → Ends (admin ∷ gs) l c
  unfolding run_chain require_role current_claims is_allowed
  admin-Ends gs l c claims e rest = elim (Bool-cases (is_allowed claims.role (role_admin ∷ []))) [
    | inl allowed ↦ continue (admin ∷ gs) gs l l c c (ground arith) (ground arith) rest
    | inr refused ↦ inr (l, 403, bad_role, bad_role, ground arith, ground arith, inr (inr refl))
  ]

  v1-Ends : (l : Limiter t) (c : Context) → Ends v1 l c
  v1-Ends l c = limit-Ends [] l c (λ l1. open-Ends l1 c)

  authenticated-Ends : (l : Limiter t) (c : Context) → Ends authenticated l c
  authenticated-Ends l c = limit-Ends (authentication ∷ []) l c (λ l1.
      authentication-Ends [] l1 c (λ claims. open-Ends l1 (record c { claims = some claims })))

  admin_group-Ends : (l : Limiter t) (c : Context) → Ends admin_group l c
  admin_group-Ends l c = limit-Ends (authentication ∷ admin ∷ []) l c (λ l1.
      authentication-Ends (admin ∷ []) l1 c (λ claims.
        let c1 : Context = record c { claims = some claims } in
        admin-Ends [] l1 c1 claims refl (open-Ends l1 c1)))

  pub guards-Ends : (e : Endpoint) (l : Limiter t) (c : Context) → Ends (guards e) l c
  unfolding guards
  guards-Ends healthz = open-Ends
  guards-Ends readyz = open-Ends
  guards-Ends register = v1-Ends
  guards-Ends login = v1-Ends
  guards-Ends me = authenticated-Ends
  guards-Ends upload_document = authenticated-Ends
  guards-Ends get_document = authenticated-Ends
  guards-Ends summarize = authenticated-Ends
  guards-Ends search = authenticated-Ends
  guards-Ends rag_query = authenticated-Ends
  guards-Ends admin_ping = admin_group-Ends
  guards-Ends admin_evaluate = admin_group-Ends
  guards-Ends admin_users = admin_group-Ends
  guards-Ends admin_documents = admin_group-Ends
  guards-Ends admin_jobs = admin_group-Ends
  guards-Ends admin_stats = admin_group-Ends
