-- ===== src/Auth.antt =====
-- Package auth: accounts, tokens, and the middleware that guards the routes
-- (gateway-go/internal/auth).
pub mod User
pub mod Repository
pub mod Token
pub mod Password
pub mod Service
pub mod Middleware
pub mod Fixtures
mod Tests
