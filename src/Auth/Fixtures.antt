-- ===== src/Auth/Fixtures.antt =====
-- Small stand-ins for bcrypt and the JWT library that meet their documented behaviour, and accounts
-- to try the theorems of package auth (gateway-go/internal/auth) on.
use financial_ai_platform.Prelude.{
  ℕ, zero, suc, ◌-◌, ◌%◌, ◌*◌, not, is_empty, ◌<◌, ◌≤◌, ◌≡◌, refl, true, false, ◌&&◌, [], ◌∷◌, ◌++◌,
  Option, none, some, arith, if◌then◌else◌, ltb, Text, lit, text_eq, text_eq_refl, length, take,
  drop, take-append, drop-append, ok, err, Bool, to_lower, trim_space, get, put,
}
use financial_ai_platform.Auth.User.{User, role_user, role_admin, user_not_found}
use financial_ai_platform.Auth.Repository.{
  MemoryUserRepository, new_memory_user_repository, normalize_email, create, find_by_id,
}
use financial_ai_platform.Auth.Repository.Contract.{memory_user_repository}
use financial_ai_platform.Auth.Password.{Bcrypt}
use financial_ai_platform.Auth.Token.{Claims, Jwt, SigningMethod, other, hs256, second}
use financial_ai_platform.Auth.Service.{Service, Draw, new_user, register}

-- A hash that is the password itself behind its salt.
unfoldable pub plain_compare : Text → Text → Bool
plain_compare [] plain = false
plain_compare (salt ∷ hash) plain = text_eq hash plain

pub plain_compare-generate :
    (salt : ℕ) (plain hash : Text)
    → some (salt ∷ plain) ≡ some hash
    → plain_compare hash plain ≡ true
unfolding plain_compare
plain_compare-generate salt plain hash h = ground (arith, text_eq_refl plain)

abbrev pub plain_bcrypt : Bcrypt
plain_bcrypt = record {
  generate = λ salt plain. some (salt ∷ plain);
  compare = plain_compare;
  compare-generate = plain_compare-generate;
}

-- Tokens that spell out their claims and the key; the first number tells the method.
unfoldable pub frame : Text → Text → Text
frame t rest = length t ∷ (t ++ rest)

unframe : Text → Option (Text × Text)
unframe [] = none
unframe (n ∷ rest) = some (take n rest, drop n rest)

unframe-frame : (t rest : Text) → unframe (frame t rest) ≡ some (t, rest)
unfolding unframe frame
unframe-frame t rest = ground (arith, take-append t rest, drop-append t rest)

unfoldable pub encode : Claims → Text → Text
encode c secret =
    0
    ∷ c.issued_at
    ∷ c.expires_at
    ∷ frame c.issued_by
        (frame c.subject (frame c.user_id (frame c.email (frame c.role (frame secret [])))))

infixl 5 ◌>>=◌
abbrev ◌>>=◌ : {A B : Type 0} → Option A → (A → Option B) → Option B
none >>= f = none
some a >>= f = f a

decode : Text → Option (Claims × Text)
decode (zero ∷ iat ∷ exp ∷ r0) = do
  r1 ← unframe r0
  r2 ← unframe r1.1
  r3 ← unframe r2.1
  r4 ← unframe r3.1
  r5 ← unframe r4.1
  r6 ← unframe r5.1
  some (
    record {
      issued_by = r1.0;
      subject = r2.0;
      issued_at = iat;
      expires_at = exp;
      user_id = r3.0;
      email = r4.0;
      role = r5.0;
    },
    r6.0,
  )
decode _ = none

decode-encode : (c : Claims) (secret : Text) → decode (encode c secret) ≡ some (c, secret)
unfolding decode encode
decode-encode c secret = simp (unframe-frame, ◌>>=◌)

unfoldable pub sign : Claims → Text → Option Text
sign c secret = some (encode c secret)

unfoldable pub method : Text → Option SigningMethod
method [] = none
method (zero ∷ r) = some hs256
method (suc n ∷ r) = some (other (n ∷ []))

checked : Option (Claims × Text) → Option Text → ℕ → Option (Claims × Bool)
checked (some (c, secret)) (some key) now =
    if text_eq secret key && ltb now c.expires_at then some (c, true) else none
checked _ _ now = none

pub verify : Text → (SigningMethod → Option Text) → ℕ → Option (Claims × Bool)
unfolding checked
verify (zero ∷ r) key now = checked (decode (zero ∷ r)) (key hs256) now
verify _ key now = none

pub verify-sign :
    (c : Claims) (secret token : Text) (key : SigningMethod → Option Text) (now : ℕ)
    → sign c secret ≡ some token
    → key hs256 ≡ some secret
    → now < c.expires_at
    → verify token key now ≡ some (c, true)
unfolding sign verify encode
verify-sign c secret token key now signed keyed early =
    ground (arith, decode-encode c secret, text_eq_refl secret)

pub verify_expired :
    (c : Claims) (secret token : Text) (key : SigningMethod → Option Text) (now : ℕ)
    → sign c secret ≡ some token
    → c.expires_at ≤ now
    → verify token key now ≡ none
unfolding sign verify encode
verify_expired c secret token key now signed late = ground (arith, decode-encode c secret)

pub verify_no_key :
    (token : Text) (m : SigningMethod) (key : SigningMethod → Option Text) (now : ℕ)
    → method token ≡ some m
    → key m ≡ none
    → verify token key now ≡ none
unfolding method verify
verify_no_key [] m key now named missing = refl
verify_no_key (zero ∷ r) m key now named missing = ground arith
verify_no_key (suc n ∷ r) m key now named missing = refl

abbrev pub spelled_jwt : Jwt
spelled_jwt = record {
  new_numeric_date = λ t. t - t % second;
  signed_string = sign;
  method_of = method;
  parse_with_claims = verify;
  new_numeric_date-le = λ t. omega arith;
  lt-new_numeric_date = λ t. omega arith;
  parse-signed = verify-sign;
  parse_expired = verify_expired;
  parse_no_key = verify_no_key;
}

abbrev pub hour : ℕ
hour = 3600 * second

abbrev pub service : Service
service = record {
  repo = memory_user_repository;
  tokens = record { secret = lit "k1"; ttl = hour };
  bcrypt = plain_bcrypt;
  jwt = spelled_jwt;
  parse_address = λ e. not (is_empty e);
}

abbrev pub no_accounts : MemoryUserRepository
no_accounts = new_memory_user_repository

abbrev pub draw_ann : Draw
draw_ann = record { id = lit "u1"; salt = 7; now = 5 * second }

abbrev pub draw_root : Draw
draw_root = record { id = lit "u0"; salt = 3; now = 0 }

abbrev pub ann : User
ann = new_user draw_ann (lit "Ann@x.io") (7 ∷ lit "correct horse") role_user

abbrev pub root : User
root = new_user draw_root (lit "root@x.io") (3 ∷ lit "battery staple") role_admin

abbrev pub with_ann : MemoryUserRepository
with_ann = record { by_id = (lit "u1", ann) ∷ []; by_eml = (lit "ann@x.io", lit "u1") ∷ [] }

abbrev pub with_root : MemoryUserRepository
with_root = record { by_id = (lit "u0", root) ∷ []; by_eml = (lit "root@x.io", lit "u0") ∷ [] }

pub ann_signed_up :
    register service no_accounts draw_ann (lit "Ann@x.io") (lit "correct horse")
    ≡ ok (with_ann, ann)
unfolding register create put get normalize_email to_lower trim_space
ann_signed_up = refl

pub ann_fresh : find_by_id no_accounts (lit "u1") ≡ err user_not_found
unfolding find_by_id get
ann_fresh = refl
