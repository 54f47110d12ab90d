-- ===== src/Auth/Password.antt =====
-- Password hashing (gateway-go/internal/auth/password.go) over the library bcrypt, a parameter.
use financial_ai_platform.Prelude.{ℕ, ◌≡◌, Bool, true, Option, none, some, Text, Result, ok, err}
use financial_ai_platform.Auth.User.{AuthError, hash_failed}

-- golang.org/x/crypto/bcrypt. `generate` is given the randomness of the salt, and fails on some
-- inputs (passwords of more than 72 bytes); a password matches the hash made from it.
pub record Bcrypt : Type 0 where
  pub generate : ℕ → Text → Option Text
  pub compare : Text → Text → Bool
  pub compare-generate :
      (salt : ℕ) (plain hash : Text) → generate salt plain ≡ some hash → compare hash plain ≡ true

module _ (b : Bcrypt) where
  unfoldable pub hash_password : ℕ → Text → Result AuthError Text
  hash_password salt plain = elim (b.generate salt plain) [
    | none ↦ err hash_failed
    | some hash ↦ ok hash
  ]

  -- `true` stands for the `nil` error.
  unfoldable pub verify_password : Text → Text → Bool
  verify_password hash plain = b.compare hash plain
