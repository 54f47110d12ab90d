-- ===== src/HttpServer.antt =====
-- The routes of the gateway with the middleware before each handler,
-- gateway-go/internal/httpserver/routes.go and server.go. gin, which finds the route of a request and runs
-- its chain, is not modelled: a request comes with its endpoint.
pub mod Access
pub mod Refusals
pub mod Engine
pub mod Listeners
mod Tests
use financial_ai_platform.Prelude.{
  ℕ, Bool, true, false, if◌then◌else◌, List, [], ◌∷◌, ◌++◌, Option, none, some, Text, lit, is_empty,
}
use financial_ai_platform.Auth.User.{role_admin}
use financial_ai_platform.Auth.Token.{Jwt, TokenService}
use financial_ai_platform.Auth.Middleware.{Context, authenticate, require_role}
use financial_ai_platform.RateLimit.{TokenBucket, Limiter, middleware}

-- The handlers, by their routes.
pub data Endpoint : Type 0 where
  healthz readyz : Endpoint
  register login me : Endpoint
  upload_document get_document summarize : Endpoint
  search rag_query : Endpoint
  admin_ping admin_evaluate admin_users admin_documents admin_jobs admin_stats : Endpoint

-- A middleware of a group or of a route.
pub data Guard : Type 0 where
  limit authentication : Guard
  admin : Guard

-- The group /api/v1, and its groups.
abbrev pub v1 : List Guard
v1 = limit ∷ []

abbrev pub authenticated : List Guard
authenticated = v1 ++ authentication ∷ []

abbrev pub admin_group : List Guard
admin_group = v1 ++ authentication ∷ admin ∷ []

unfoldable pub guards : Endpoint → List Guard
guards healthz = []
guards readyz = []
guards register = v1
guards login = v1
guards me = authenticated
guards upload_document = authenticated
guards get_document = authenticated
guards summarize = authenticated
guards search = authenticated
guards rag_query = authenticated
guards admin_ping = admin_group
guards admin_evaluate = admin_group
guards admin_users = admin_group
guards admin_documents = admin_group
guards admin_jobs = admin_group
guards admin_stats = admin_group

-- A request with the address that keys its limit; `id` is its correlation id.
pub record Request : Type 0 where
  pub client_ip : Text
  pub id_header : Text
  pub context : Context

-- RequestID of gateway-go/internal/middleware: the id of the header, or a new one.
unfoldable pub request_id : Text → Request → Text
request_id minted req = if is_empty req.id_header then minted else req.id_header

module _ (t : TokenBucket) (j : Jwt) (tokens : TokenService) {R : Type 0}
    (abort : Limiter t → ℕ → Text → R) where
  -- The chain of a route: each guard aborts, or runs the next.
  unfoldable pub run_chain :
      List Guard → ℕ → Text → (Limiter t → Context → R) → Limiter t → Context → R
  run_chain [] now ip handler l c = handler l c
  run_chain (limit ∷ rest) now ip handler l c =
      middleware t abort (λ l'. run_chain rest now ip handler l' c) now l ip
  run_chain (authentication ∷ rest) now ip handler l c =
      authenticate (abort l) j tokens now (λ c'. run_chain rest now ip handler l c') c
  run_chain (admin ∷ rest) now ip handler l c =
      require_role (abort l) (role_admin ∷ []) (λ c'. run_chain rest now ip handler l c') c

  unfoldable pub serve : Endpoint → ℕ → (Limiter t → Context → R) → Limiter t → Request → R
  unfolding guards run_chain
  serve e now handler l req = run_chain (guards e) now req.client_ip handler l req.context
