-- ===== src/HttpServer/Listeners/Tests.antt =====
-- The mode of gin in either environment.
use financial_ai_platform.Prelude.{◌≡◌, refl, lit, text_eq}
use financial_ai_platform.HttpServer.Listeners.{release_mode, debug_mode, gin_mode}

modes : (gin_mode (lit "production") ≡ release_mode) × (gin_mode (lit "staging") ≡ debug_mode)
unfolding gin_mode text_eq
modes = (refl, refl)
