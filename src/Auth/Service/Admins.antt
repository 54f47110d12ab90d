-- ===== src/Auth/Service/Admins.antt =====
-- How accounts with the role "admin" come to be (gateway-go/internal/auth/service.go).
use financial_ai_platform.Prelude.{
  ℕ, ◌+◌, ◌≤◌, ◌≡◌, refl, some, [], text_eq_refl, true, Bool, ap, ◌∙◌, arith, if◌then◌else◌, inl,
  inr, Text, text_eq, count, Result-cases, ok, err,
}
use financial_ai_platform.Auth.User.{User, role_user, role_admin, user_not_found}
use financial_ai_platform.Auth.Repository.{same_email, normalize_email}
use financial_ai_platform.Auth.Token.{Claims, second, generate, claims_for, parse}
use financial_ai_platform.Auth.Token.Validity.{parse-generate}
use financial_ai_platform.Auth.Service.{
  Service, Draw, new_user, create_user, register, seed_admin, login,
}
use financial_ai_platform.Auth.Service.Accounts.{
  IsCreated, create_user-IsCreated, register-IsCreated,
}

abbrev pub is_admin : User → Bool
is_admin u = text_eq u.role role_admin

module _ (s : Service) where
  abbrev pub admins : s.Store → ℕ
  admins store = count is_admin (s.list_all store)

  -- Any sequence of successful registrations, each under a fresh id.
  pub data Registers (start : s.Store) : s.Store → Type 0 where
    here : Registers start start
    next :
        {store store' : s.Store}
        → Registers start store
        → (d : Draw) (u : User) (email password : Text)
        → s.find_by_id store d.id ≡ err user_not_found
        → register s store d email password ≡ ok (store', u)
        → Registers start store'

  admins-IsCreated :
      (store store' : s.Store) (d : Draw) (u : User) (email password role : Text)
      → s.find_by_id store d.id ≡ err user_not_found
      → IsCreated s store d email password role store' u
      → admins store' ≡ (if text_eq role role_admin then 1 else 0) + admins store
  admins-IsCreated store store' d u email password role fresh c =
      let counted =
        s.count-list_all-create store store' u is_admin
          (ap (λ v. s.find_by_id store v.id) c.shape ∙ fresh) c.stored in
      ground (arith, counted, c.shape)

  admins-register :
      (store store' : s.Store) (d : Draw) (u : User) (email password : Text)
      → s.find_by_id store d.id ≡ err user_not_found
      → register s store d email password ≡ ok (store', u)
      → admins store' ≡ admins store
  unfolding text_eq
  admins-register store store' d u email password fresh h = omega (
    arith,
    admins-IsCreated store store' d u email password role_user fresh
        (register-IsCreated s store d email password store' u h),
  )

  -- No sequence of registrations makes an admin.
  pub admins-Registers :
      {start store : s.Store} → Registers start store → admins store ≡ admins start
  admins-Registers here = refl
  admins-Registers (next {store = t} {store' = t'} r d u email password fresh h) =
      admins-register t t' d u email password fresh h ∙ admins-Registers r

  seed_admin-eq-ok :
      (store store' : s.Store) (d : Draw) (email password : Text)
      → s.find_by_email store email ≡ err user_not_found
      → seed_admin s store d email password ≡ ok store'
      → (u : User) × IsCreated s store d email password role_admin store' u
  unfolding seed_admin
  seed_admin-eq-ok store store' d email password missing h =
      elim (Result-cases (create_user s store d email password role_admin)) [
        | inl (r, e) ↦ (
          r.1,
          create_user-IsCreated s store d email password role_admin store' r.1 (ground arith),
        )
        | inr (x, e) ↦ absurd (ground arith)
      ]

-- `SeedAdmin` on a repository without admins, and then any registrations: there is exactly one
-- admin, if the seeded address was not taken.
pub admins-seed_admin :
    (s : Service) (store seeded later : s.Store) (d : Draw) (email password : Text)
    → admins s store ≡ 0
    → s.find_by_id store d.id ≡ err user_not_found
    → s.find_by_email store email ≡ err user_not_found
    → seed_admin s store d email password ≡ ok seeded
    → Registers s seeded later
    → admins s later ≡ 1
unfolding text_eq
admins-seed_admin s store seeded later d email password none_yet fresh missing h r =
    let (u, c) = seed_admin-eq-ok s store seeded d email password missing h in
    omega (
      arith,
      admins-Registers s r,
      admins-IsCreated s store seeded d u email password role_admin fresh c,
    )

-- Seeding again, under any equivalent spelling and with any password, changes nothing.
pub seed_admin_idem :
    (s : Service) (store seeded : s.Store) (d again : Draw) (email password spelling other : Text)
    → s.IsValid store
    → s.find_by_id store d.id ≡ err user_not_found
    → s.find_by_email store email ≡ err user_not_found
    → seed_admin s store d email password ≡ ok seeded
    → same_email email spelling ≡ true
    → seed_admin s seeded again spelling other ≡ ok seeded
seed_admin_idem s store seeded d again email password spelling other valid fresh missing h same =
    let (u, c) = seed_admin-eq-ok s store seeded d email password missing h in
    let found =
      s.find_by_email-create store seeded u spelling valid
        (ap (λ v. s.find_by_id store v.id) c.shape ∙ fresh) c.stored in
    unfold seed_admin in ground (arith, found, c.shape)

-- The role "admin" is not what `SeedAdmin` looks at: if an account with that address exists, whatever
-- its role, nothing is created and no error is reported.
pub seed_admin_taken :
    (s : Service) (store : s.Store) (d : Draw) (u : User) (email password : Text)
    → s.find_by_email store email ≡ ok u
    → seed_admin s store d email password ≡ ok store
unfolding seed_admin
seed_admin_taken s store d u email password taken = ground arith

-- After `SeedAdmin` on a repository without the address, the seeded account logs in with its password,
-- provided that the token can be signed, and until a second before its expiry the token is accepted, with
-- the role "admin".
pub login-seed_admin :
    (s : Service) (store seeded : s.Store) (d : Draw) (email password token : Text) (issued now : ℕ)
    → s.IsValid store
    → s.find_by_id store d.id ≡ err user_not_found
    → s.find_by_email store email ≡ err user_not_found
    → seed_admin s store d email password ≡ ok seeded
    → s.jwt.signed_string
        (claims_for s.jwt s.tokens issued (new_user d email [] role_admin))
        s.tokens.secret
      ≡ some token
    → now + second ≤ issued + s.tokens.ttl
    → (login s seeded issued email password ≡ ok (token, issued + s.tokens.ttl))
      × (c : Claims) × (parse s.jwt s.tokens now token ≡ ok c)
      × (c.user_id ≡ d.id)
      × (c.role ≡ role_admin)
unfolding login claims_for generate
login-seed_admin s store seeded d email password token issued now valid fresh missing h signs
      early =
    let (u, c) = seed_admin-eq-ok s store seeded d email password missing h in
    let found =
      s.find_by_email-create store seeded u email valid
        (ap (λ v. s.find_by_id store v.id) c.shape ∙ fresh) c.stored in
    let generated : generate s.jwt s.tokens issued u ≡ ok (token, issued + s.tokens.ttl) =
      ground (arith, c.shape) in
    (
      ground (
        arith,
        c.shape,
        found,
        text_eq_refl (normalize_email email),
        s.bcrypt.compare-generate d.salt password c.hash c.hashed,
      ),
      claims_for s.jwt s.tokens issued u,
      parse-generate s.jwt s.tokens u issued _ now token generated early,
      ap (λ v. v.id) c.shape,
      ap (λ v. v.role) c.shape,
    )
