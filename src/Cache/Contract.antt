-- ===== src/Cache/Contract.antt =====
-- The interface `Cache` (gateway-go/internal/cache/cache.go) with what its clients rely on, and the
-- cache in memory as an implementation.
use financial_ai_platform.Prelude.{
  ℕ, ◌+◌, ◌≤◌, ◌<◌, ◌≡◌, sym, ap, ◌∙◌, arith, false, ltb, if◌then◌else◌, Bool-cases, inl, inr,
  Option, none, some, Option-cases, Text, text_eq, text_eq_iff, get, get-put, get-put_self,
  get-remove,
}
use financial_ai_platform.Cache.{Entry, MemoryCache, lookup, store}

-- A lookup returns the state that it leaves; `set` is given the time, and the time to live.
pub record Cache : Type 1 where
  pub Store : Type 0
  pub lookup : ℕ → Store → Text → Store × Option Text
  pub set : ℕ → Store → Text → Text → ℕ → Store
  -- What was just set is found until its time to live has passed.
  pub lookup-set :
      (c : Store) (now later : ℕ) (key value : Text) (ttl : ℕ)
      → now ≤ later
      → later < now + ttl
      → (lookup later (set now c key value ttl) key).1 ≡ some value
  -- A lookup changes nothing that a later one finds.
  pub lookup-lookup :
      (c : Store) (now later : ℕ) (key key' : Text)
      → now ≤ later
      → (lookup later (lookup now c key').0 key).1 ≡ (lookup later c key).1
  -- What is set under another key is not found under this one.
  pub lookup-set_other :
      (c : Store) (now later : ℕ) (key key' value : Text) (ttl : ℕ)
      → text_eq key' key ≡ false
      → (lookup later (set now c key' value ttl) key).1 ≡ (lookup later c key).1

-- What `lookup` finds, without the counts and the deletion.
abbrev found : ℕ → Option Entry → Option Text
found now none = none
found now (some e) = if ltb e.expires_at now then none else some e.value

lookup-found :
    (c : MemoryCache) (now : ℕ) (key : Text) → (lookup now c key).1 ≡ found now (get c.entries key)
unfolding lookup
lookup-found c now key = elim (Option-cases (get c.entries key)) [
  | inl e ↦ ground arith
  | inr (entry, e) ↦ ground arith
]

-- A lookup deletes an entry at most if it has expired.
get-lookup :
    (c : MemoryCache) (now later : ℕ) (key key' : Text)
    → now ≤ later
    → found later (get (lookup now c key').0.entries key) ≡ found later (get c.entries key)
unfolding lookup
get-lookup c now later key key' order = elim (Option-cases (get c.entries key')) [
  | inl e ↦ ground arith
  | inr (entry, e) ↦ elim (Bool-cases (ltb entry.expires_at now)) [
    | inr live ↦ ground arith
    | inl expired ↦ elim (Bool-cases (text_eq key' key)) [
      | inl same ↦
          let equal = (text_eq_iff key' key).0 same in ground (arith, get-remove c.entries key' key)
      | inr other ↦ ground (arith, get-remove c.entries key' key)
    ]
  ]
]

pub lookup_twice :
    (c : MemoryCache) (now later : ℕ) (key key' : Text)
    → now ≤ later
    → (lookup later (lookup now c key').0 key).1 ≡ (lookup later c key).1
lookup_twice c now later key key' order =
    lookup-found (lookup now c key').0 later key
    ∙ get-lookup c now later key key' order
    ∙ sym (lookup-found c later key)

pub lookup-store_other :
    (c : MemoryCache) (now later : ℕ) (key key' value : Text) (ttl : ℕ)
    → text_eq key' key ≡ false
    → (lookup later (store now c key' value ttl) key).1 ≡ (lookup later c key).1
unfolding store
lookup-store_other c now later key key' value ttl other =
    let new : Entry = record { value = value; expires_at = now + ttl } in
    lookup-found (store now c key' value ttl) later key
    ∙ ap (found later) (get-put c.entries key' key new ∙ ground arith)
    ∙ sym (lookup-found c later key)

pub lookup-store :
    (c : MemoryCache) (now later : ℕ) (key value : Text) (ttl : ℕ)
    → now ≤ later
    → later < now + ttl
    → (lookup later (store now c key value ttl) key).1 ≡ some value
unfolding lookup store
lookup-store c now later key value ttl h before =
    let new : Entry = record { value = value; expires_at = now + ttl } in
    ground (arith, get-put_self c.entries key new)

abbrev pub memory_cache : Cache
memory_cache = record {
  Store = MemoryCache;
  lookup = lookup;
  set = store;
  lookup-set = lookup-store;
  lookup-lookup = lookup_twice;
  lookup-set_other = lookup-store_other;
}
