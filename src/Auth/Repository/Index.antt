-- ===== src/Auth/Repository/Index.antt =====
-- The two maps of the in-memory repository agree (gateway-go/internal/auth/memory_repository.go).
use financial_ai_platform.Prelude.{
  ◌≡◌, inl, inr, none, some, arith, sym, subst, ◌↔◌, Bool-cases, Option-cases, Text, text_eq,
  text_eq_iff, get, put, get-put, get-put_self, put-IsDistinct, IsDistinct, ok,
}
use financial_ai_platform.Auth.User.{User}
use financial_ai_platform.Auth.Repository.{
  MemoryUserRepository, new_memory_user_repository, normalize_email, create, find_by_email,
}

-- Each indexed address leads to a stored account with that address, each stored account stands
-- under its own id and is indexed, and no key stands twice.
pub record IsIndexed (r : MemoryUserRepository) : Type 0 where
  pub ids_distinct : IsDistinct r.by_id
  pub emails_distinct : IsDistinct r.by_eml
  pub indexed_is_stored :
      (key id : Text)
      → get r.by_eml key ≡ some id
      → (u : User) × (get r.by_id id ≡ some u) × (normalize_email u.email ≡ key)
  pub stored_is_indexed :
      (id : Text) (u : User)
      → get r.by_id id ≡ some u
      → (u.id ≡ id) × (get r.by_eml (normalize_email u.email) ≡ some id)

-- The empty repository is consistent.
pub new-IsIndexed : IsIndexed new_memory_user_repository
unfolding get
new-IsIndexed = record {
  ids_distinct = tt;
  emails_distinct = tt;
  indexed_is_stored = λ key id h. absurd (cc);
  stored_is_indexed = λ id u h. absurd (cc);
}

module _ (r : MemoryUserRepository) (u : User) where
  -- What a successful `create` leaves.
  abbrev pub added : MemoryUserRepository
  added = record {
    by_id = put r.by_id u.id u;
    by_eml = put r.by_eml (normalize_email u.email) u.id;
  }

  pub create-eq-added :
      (r' : MemoryUserRepository)
      → create r u ≡ ok r'
      → (get r.by_eml (normalize_email u.email) ≡ none) × (r' ≡ added)
  unfolding create
  create-eq-added r' h = ground arith

  module _ (v : IsIndexed r) (fresh : get r.by_id u.id ≡ none) where
    kept_id : (id : Text) (w : User) → get r.by_id id ≡ some w → get added.by_id id ≡ some w
    kept_id id w e = ground (arith, get-put r.by_id u.id id u, text_eq_iff u.id id)

    added_index :
        (key id : Text)
        → get added.by_eml key ≡ some id
        → (w : User) × (get added.by_id id ≡ some w) × (normalize_email w.email ≡ key)
    added_index key id h = elim (Bool-cases (text_eq (normalize_email u.email) key)) [
      | inl same ↦ (
        u,
        ground (
          arith,
          get-put r.by_eml (normalize_email u.email) key u.id,
          get-put_self r.by_id u.id u,
        ),
        (text_eq_iff _ _).0 same,
      )
      | inr other ↦
          let (w, stored, named) =
            v.indexed_is_stored key id
              (ground (arith, get-put r.by_eml (normalize_email u.email) key u.id)) in
          (w, kept_id id w stored, named)
    ]

    added_stored :
        get r.by_eml (normalize_email u.email) ≡ none
        → (id : Text) (w : User) → get added.by_id id ≡ some w
        → (w.id ≡ id) × (get added.by_eml (normalize_email w.email) ≡ some id)
    added_stored unused id w h = ground (
      arith,
      get-put r.by_id u.id id u,
      text_eq_iff u.id id,
      get-put r.by_eml (normalize_email u.email) (normalize_email w.email) u.id,
      text_eq_iff (normalize_email u.email) (normalize_email w.email),
      v.stored_is_indexed id w,
    )

    -- Adding an account under an unused id and an unused address keeps the maps in agreement.
    pub added-IsIndexed : get r.by_eml (normalize_email u.email) ≡ none → IsIndexed added
    added-IsIndexed unused = record {
      ids_distinct = put-IsDistinct r.by_id u.id u v.ids_distinct;
      emails_distinct = put-IsDistinct r.by_eml _ u.id v.emails_distinct;
      indexed_is_stored = added_index;
      stored_is_indexed = added_stored unused;
    }

-- `create` with an unused id keeps the two maps in agreement; an error changes nothing.
pub create-IsIndexed :
    (r r' : MemoryUserRepository) (u : User)
    → IsIndexed r
    → get r.by_id u.id ≡ none
    → create r u ≡ ok r'
    → IsIndexed r'
create-IsIndexed r r' u v fresh h =
    let (unused, e) = create-eq-added r u r' h in
    subst IsIndexed (sym e) (added-IsIndexed r u v fresh unused)

-- An address is taken exactly if an account with the same normalized address is stored.
pub find_by_email_iff :
    (r : MemoryUserRepository) (email : Text) (u : User)
    → IsIndexed r
    → (find_by_email r email ≡ ok u)
      ↔ ((get r.by_id u.id ≡ some u) × (normalize_email u.email ≡ normalize_email email))
unfolding find_by_email
find_by_email_iff r email u v = (to, from)
  where
    to :
        find_by_email r email ≡ ok u
        → (get r.by_id u.id ≡ some u) × (normalize_email u.email ≡ normalize_email email)
    to h = elim (Option-cases (get r.by_eml (normalize_email email))) [
      | inl missing ↦ absurd (ground arith)
      | inr (id, e) ↦
          let (w, stored, named) = v.indexed_is_stored (normalize_email email) id e in
          let same : w ≡ u = ground arith in ground (arith, v.stored_is_indexed id w)
    ]

    from :
        (get r.by_id u.id ≡ some u) × (normalize_email u.email ≡ normalize_email email)
        → find_by_email r email ≡ ok u
    from (stored, named) = ground (arith, v.stored_is_indexed u.id u stored)
