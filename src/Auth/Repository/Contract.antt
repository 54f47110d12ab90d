-- ===== src/Auth/Repository/Contract.antt =====
-- The in-memory repository meets the contract of `UserRepository`
-- (gateway-go/internal/auth/memory_repository.go).
use financial_ai_platform.Prelude.{
  ◌≡◌, Bool, ◌∷◌, none, arith, inl, inr, Option-cases, if◌then◌else◌, text_eq_iff, get, get-put,
  get-put_self, count, count-values-put, ok, err, Text,
}
use financial_ai_platform.Auth.User.{User, user_not_found, user_exists}
use financial_ai_platform.Auth.Repository.{
  UserRepository, MemoryUserRepository, normalize_email, same_email, create, find_by_email,
  find_by_id, list_all,
}
use financial_ai_platform.Auth.Repository.Index.{
  IsIndexed, create-eq-added, create-IsIndexed, added,
}

pub get_of_find :
    (r : MemoryUserRepository) (id : Text)
    → find_by_id r id ≡ err user_not_found
    → get r.by_id id ≡ none
unfolding find_by_id
get_of_find r id h = ground arith

pub create_taken :
    (r : MemoryUserRepository) (u v : User)
    → find_by_email r u.email ≡ ok v
    → create r u ≡ err user_exists
unfolding create find_by_email
create_taken r u v h = ground arith

pub create_free :
    (r : MemoryUserRepository) (u : User)
    → find_by_email r u.email ≡ err user_not_found
    → (r' : MemoryUserRepository) × (create r u ≡ ok r')
unfolding create find_by_email
create_free r u h = (added r u, ground arith)

find_by_email-added :
    (r : MemoryUserRepository) (u : User) (e : Text)
    → IsIndexed r
    → get r.by_id u.id ≡ none
    → find_by_email (added r u) e ≡ (if same_email u.email e then ok u else find_by_email r e)
unfolding find_by_email
find_by_email-added r u e v fresh = elim (Option-cases (get r.by_eml (normalize_email e))) [
  | inl missing ↦ ground (
    arith,
    get-put r.by_eml (normalize_email u.email) (normalize_email e) u.id,
    get-put_self r.by_id u.id u,
  )
  | inr (id, found) ↦
      let (w, stored, named) = v.indexed_is_stored (normalize_email e) id found in
      ground (
        arith,
        get-put r.by_eml (normalize_email u.email) (normalize_email e) u.id,
        get-put_self r.by_id u.id u,
        get-put r.by_id u.id id u,
        text_eq_iff u.id id,
      )
]

-- After a successful `create` with an unused id, a lookup by address finds the new account for the
-- addresses that normalize to its own, and what it found before for all others.
pub find_by_email-create :
    (r r' : MemoryUserRepository) (u : User) (e : Text)
    → IsIndexed r
    → find_by_id r u.id ≡ err user_not_found
    → create r u ≡ ok r'
    → find_by_email r' e ≡ (if same_email u.email e then ok u else find_by_email r e)
find_by_email-create r r' u e v fresh h =
    let (unused, shape) = create-eq-added r u r' h in
    rw shape (find_by_email-added r u e v (get_of_find r u.id fresh))

pub count-list_all-create :
    (r r' : MemoryUserRepository) (u : User) (p : User → Bool)
    → find_by_id r u.id ≡ err user_not_found
    → create r u ≡ ok r'
    → count p (list_all r') ≡ count p (u ∷ list_all r)
unfolding list_all
count-list_all-create r r' u p fresh h =
    let (unused, shape) = create-eq-added r u r' h in
    rw shape (count-values-put p r.by_id u.id u (get_of_find r u.id fresh))

abbrev pub memory_user_repository : UserRepository
memory_user_repository = record {
  Store = MemoryUserRepository;
  IsValid = IsIndexed;
  create = create;
  find_by_email = find_by_email;
  find_by_id = find_by_id;
  list_all = list_all;
  create-IsValid = λ r r' u v fresh. create-IsIndexed r r' u v (get_of_find r u.id fresh);
  create-eq-err = create_taken;
  create-eq-ok = create_free;
  find_by_email-create = find_by_email-create;
  count-list_all-create = count-list_all-create;
}
