-- ===== src/Auth/Repository.antt =====
-- The repository of accounts: the interface `UserRepository` with its contract
-- (gateway-go/internal/auth/repository.go) and the in-memory one (memory_repository.go).
pub mod Index
pub mod Contract
use financial_ai_platform.Prelude.{
  ℕ, ◌≡◌, Bool, List, [], ◌∷◌, Option, none, some, if◌then◌else◌, Text, text_eq, to_lower,
  trim_space, Dict, get, put, values, count, Result, ok, err,
}
use financial_ai_platform.Auth.User.{User, no_user, AuthError, user_not_found, user_exists}

unfoldable pub normalize_email : Text → Text
normalize_email email = to_lower (trim_space email)

-- Two addresses that the repository takes for one.
abbrev pub same_email : Text → Text → Bool
same_email a b = text_eq (normalize_email a) (normalize_email b)

-- A call that fails leaves the store as it was. The laws say what a caller may rely on.
pub record UserRepository : Type 1 where
  pub Store : Type 0
  pub IsValid : Store → Type 0
  pub create : Store → User → Result AuthError Store
  pub find_by_email : Store → Text → Result AuthError User
  pub find_by_id : Store → Text → Result AuthError User
  pub list_all : Store → List User
  pub create-IsValid :
      (s s' : Store) (u : User)
      → IsValid s
      → find_by_id s u.id ≡ err user_not_found
      → create s u ≡ ok s'
      → IsValid s'
  pub create-eq-err :
      (s : Store) (u v : User) → find_by_email s u.email ≡ ok v → create s u ≡ err user_exists
  pub create-eq-ok :
      (s : Store) (u : User)
      → find_by_email s u.email ≡ err user_not_found
      → (s' : Store) × (create s u ≡ ok s')
  pub find_by_email-create :
      (s s' : Store) (u : User) (e : Text)
      → IsValid s
      → find_by_id s u.id ≡ err user_not_found
      → create s u ≡ ok s'
      → find_by_email s' e ≡ (if same_email u.email e then ok u else find_by_email s e)
  pub count-list_all-create :
      (s s' : Store) (u : User) (p : User → Bool)
      → find_by_id s u.id ≡ err user_not_found
      → create s u ≡ ok s'
      → count p (list_all s') ≡ count p (u ∷ list_all s)

pub record MemoryUserRepository : Type 0 where
  pub by_id : Dict User
  pub by_eml : Dict Text

abbrev pub new_memory_user_repository : MemoryUserRepository
new_memory_user_repository = record { by_id = []; by_eml = [] }

unfoldable pub create : MemoryUserRepository → User → Result AuthError MemoryUserRepository
create r user =
    let key = normalize_email user.email in
    elim (get r.by_eml key) [
      | some _ ↦ err user_exists
      | none ↦ ok (record { by_id = put r.by_id user.id user; by_eml = put r.by_eml key user.id })
    ]

abbrev or_zero : Option User → User
or_zero none = no_user
or_zero (some u) = u

unfoldable pub find_by_email : MemoryUserRepository → Text → Result AuthError User
find_by_email r email = elim (get r.by_eml (normalize_email email)) [
  | none ↦ err user_not_found
  | some id ↦ ok (or_zero (get r.by_id id))
]

unfoldable pub find_by_id : MemoryUserRepository → Text → Result AuthError User
find_by_id r id = elim (get r.by_id id) [ none ↦ err user_not_found | some user ↦ ok user ]

unfoldable pub list_all : MemoryUserRepository → List User
list_all r = values r.by_id
