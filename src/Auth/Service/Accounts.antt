-- ===== src/Auth/Service/Accounts.antt =====
-- What `Register` does on each of its branches (gateway-go/internal/auth/service.go).
use financial_ai_platform.Prelude.{
  ◌≡◌, ◌≤◌, true, none, some, arith, leb, if◌then◌else◌, inl, inr, Option-cases, Text, length, ok,
  err,
}
use financial_ai_platform.Auth.User.{
  User, Role, role_user, user_not_found, user_exists, invalid_email, weak_password, hash_failed,
}
use financial_ai_platform.Auth.Service.{
  Service, Draw, new_user, min_password_length, create_user, register,
}

module _ (s : Service) (store : s.Store) (d : Draw) (email password : Text) where
  -- The three checks that a successful creation has passed, and the account it stored.
  pub record IsCreated (role : Role) (store' : s.Store) (u : User) : Type 0 where
    pub hash : Text
    pub valid_email : s.parse_address email ≡ true
    pub long_enough : min_password_length ≤ length password
    pub hashed : s.bcrypt.generate d.salt password ≡ some hash
    pub shape : u ≡ new_user d email hash role
    pub stored : s.create store u ≡ ok store'

  pub create_user-IsCreated :
      (role : Role) (store' : s.Store) (u : User)
      → create_user s store d email password role ≡ ok (store', u)
      → IsCreated role store' u
  unfolding create_user
  create_user-IsCreated role store' u h = elim (Option-cases (s.bcrypt.generate d.salt password)) [
    | inl e ↦ absurd (ground arith)
    | inr (hash, e) ↦ record {
      hash = hash;
      valid_email = ground arith;
      long_enough = ground arith;
      hashed = e;
      shape = ground arith;
      stored = ground arith;
    }
  ]

  pub register-IsCreated :
      (store' : s.Store) (u : User)
      → register s store d email password ≡ ok (store', u)
      → IsCreated role_user store' u
  unfolding register
  register-IsCreated store' u h = create_user-IsCreated role_user store' u h

  -- With a parsable address that no account has, a password of at least 8 bytes and a hash for it,
  -- `Register` succeeds, and returns a user with role "user" that carries this address and hash.
  pub register_succeeds :
      (hash : Text)
      → s.parse_address email ≡ true
      → min_password_length ≤ length password
      → s.bcrypt.generate d.salt password ≡ some hash
      → s.find_by_email store email ≡ err user_not_found
      → (store' : s.Store) × (register s store d email password
          ≡ ok (store', new_user d email hash role_user))
  unfolding register
  register_succeeds hash parsed long hashed free =
      let (store', stored) = s.create-eq-ok store (new_user d email hash role_user) free in
      (store', ground arith)

  -- If an account with an equivalent address exists, `Register` fails, with `ErrUserExists` unless an
  -- earlier check has failed: a bad address, a short password, or a failure of the hash.
  pub register_duplicate :
      (v : User)
      → s.find_by_email store email ≡ ok v
      → register s store d email password ≡ (
          if s.parse_address email
          then if leb min_password_length (length password)
            then elim (s.bcrypt.generate d.salt password) [
              | none ↦ err hash_failed
              | some _ ↦ err user_exists
            ]
            else err weak_password
          else err invalid_email)
  unfolding register
  register_duplicate v taken = elim (Option-cases (s.bcrypt.generate d.salt password)) [
    | inl e ↦ ground arith
    | inr (hash, e) ↦
        ground (arith, s.create-eq-err store (new_user d email hash role_user) v taken)
  ]
