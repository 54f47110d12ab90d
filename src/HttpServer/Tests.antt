-- ===== src/HttpServer/Tests.antt =====
-- A request to an admin route with the token of an admin.
use financial_ai_platform.Prelude.{
  ℕ, suc, ◌*◌, ◌≡◌, ◌↔◌, refl, arith, true, none, some, [], Text, lit, text_eq,
}
use financial_ai_platform.Auth.Token.{Claims, claims_for, generate, second}
use financial_ai_platform.Auth.Middleware.{Context, admin_route}
use financial_ai_platform.Auth.Middleware.Guards.{bearer, admin_route-generate}
use financial_ai_platform.Auth.Fixtures.{service, spelled_jwt, encode, sign, hour, root}
use financial_ai_platform.RateLimit.{TokenBucket, Limiter, new_limiter, allow, middleware}
use financial_ai_platform.HttpServer.{admin_stats, guards, Request, run_chain, serve}
use financial_ai_platform.HttpServer.Access.{
  administrator, ran, aborted, IsAdmitted, serve-IsAdmitted,
}

abbrev unlimited : TokenBucket
unlimited = record { Bucket = ℕ; new_bucket = 0; allow_bucket = λ now b. (suc b, true) }

abbrev root_claims : Claims
root_claims = claims_for spelled_jwt service.tokens 0 root

root_token : Text
root_token = encode root_claims (lit "k1")

abbrev root_request : Request
root_request = record {
  client_ip = lit "10.0.0.1";
  id_header = [];
  context = record { authorization = bearer root_token; claims = none };
}

abbrev limiter : Limiter unlimited
limiter = new_limiter unlimited

root_served :
    serve unlimited spelled_jwt service.tokens aborted admin_stats
      (5 * second)
      ran
      limiter
      root_request
    ≡ ran
        (allow unlimited (5 * second) limiter (lit "10.0.0.1")).0
        (record root_request.context { claims = some root_claims })
unfolding serve guards run_chain middleware allow admin_route generate sign text_eq encode
    root_token
root_served =
    let l = (allow unlimited (5 * second) limiter (lit "10.0.0.1")).0 in
    admin_route-generate (aborted l) (ran l) spelled_jwt service.tokens root_request.context root 0
      hour (5 * second) root_token refl (λ e. cc) (omega arith) refl

-- What the handler of the statistics is called with, if it is.
abbrev root_after : Limiter unlimited
root_after = (allow unlimited (5 * second) limiter (lit "10.0.0.1")).0

abbrev root_context : Context
root_context = record root_request.context { claims = some root_claims }

abbrev IsRootAdmitted : Type 0
IsRootAdmitted =
    IsAdmitted unlimited spelled_jwt service.tokens (5 * second) limiter root_request root_after
      root_context administrator

root_admitted : IsRootAdmitted
root_admitted =
    (serve-IsAdmitted unlimited spelled_jwt service.tokens (5 * second) limiter root_request
        root_after root_context admin_stats).0
      root_served

serve-IsAdmitted_example :
    (serve unlimited spelled_jwt service.tokens aborted admin_stats
        (5 * second)
        ran
        limiter
        root_request
      ≡ ran root_after root_context)
    ↔ IsRootAdmitted
serve-IsAdmitted_example =
    serve-IsAdmitted unlimited spelled_jwt service.tokens (5 * second) limiter root_request
      root_after root_context admin_stats
