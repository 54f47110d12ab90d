-- ===== src/Cache/Expiry.antt =====
-- What a lookup finds after any calls of the cache (gateway-go/internal/cache/cache.go).
use financial_ai_platform.Prelude.{
  ℕ, ◌+◌, ◌≤◌, ◌<◌, ◌≡◌, refl, sym, ◌∙◌, ◌⊎◌, inl, inr, arith, if◌then◌else◌, ltb, ltb→lt, Option,
  none, some, List, [], ◌∷◌, Text, text_eq, text_eq_iff, get, get-put, get-remove, Bool-cases,
}
use financial_ai_platform.Cache.{Entry, MemoryCache, new_memory_cache, look_at, lookup, store}

-- A call, with the time at which it is made.
pub data Call : Type 0 where
  get_call : ℕ → Text → Call
  set_call : ℕ → Text → Text → ℕ → Call

abbrev pub time : Call → ℕ
time (get_call now key) = now
time (set_call now key value ttl) = now

abbrev pub perform : Call → MemoryCache → MemoryCache
perform (get_call now key) c = (lookup now c key).0
perform (set_call now key value ttl) c = store now c key value ttl

abbrev pub run : List Call → MemoryCache → MemoryCache
run [] c = c
run (call ∷ calls) c = run calls (perform call c)

-- The calls are made one after another, from one time to another.
abbrev pub IsTimed : ℕ → List Call → ℕ → Type 0
IsTimed first [] last = first ≤ last
IsTimed first (call ∷ calls) last = (first ≤ time call) × IsTimed (time call) calls last

-- The entry of the last `Set` for a key.
abbrev pub next_set : Text → Call → Option Entry → Option Entry
next_set k (get_call now key) old = old
next_set k (set_call now key value ttl) old =
    if text_eq key k then some (record { value = value; expires_at = now + ttl }) else old

abbrev pub last_set : Text → List Call → Option Entry → Option Entry
last_set k [] old = old
last_set k (call ∷ calls) old = last_set k calls (next_set k call old)

abbrev pub fresh_value : ℕ → Option Entry → Option Text
fresh_value now none = none
fresh_value now (some e) = if ltb e.expires_at now then none else some e.value

-- The map holds the entry, or has dropped it after its expiry.
abbrev Holds : ℕ → MemoryCache → Text → Option Entry → Type 0
Holds now c k o =
    (get c.entries k ≡ o)
    ⊎ ((e : Entry) × (o ≡ some e) × (e.expires_at < now) × (get c.entries k ≡ none))

-- A lookup leaves an entry alone, or drops it after its expiry.
Dropped : ℕ → MemoryCache → Text → MemoryCache → Type 0
Dropped now c k c' =
    (e : Entry) × (get c.entries k ≡ some e) × (e.expires_at < now) × (get c'.entries k ≡ none)

look_at-Dropped :
    (now : ℕ) (c : MemoryCache) (key k : Text) (found : Option Entry)
    → get c.entries key ≡ found
    → (get (look_at now c key found).0.entries k ≡ get c.entries k)
      ⊎ Dropped now c k (look_at now c key found).0
unfolding Dropped
look_at-Dropped now c key k none h = inl refl
look_at-Dropped now c key k (some e) h = elim (Bool-cases (ltb e.expires_at now)) [
  | inr early ↦ inl (ground arith)
  | inl late ↦ elim (Bool-cases (text_eq key k)) [
    | inr other ↦ inl (ground (arith, get-remove c.entries key k))
    | inl same ↦ inr (
      e,
      ground (arith, text_eq_iff key k),
      ltb→lt e.expires_at now late,
      ground (arith, get-remove c.entries key k),
    )
  ]
]

lookup-Holds :
    (first now : ℕ) (c : MemoryCache) (key k : Text) (o : Option Entry)
    → first ≤ now
    → Holds first c k o
    → Holds now (lookup now c key).0 k o
unfolding lookup Dropped
lookup-Holds first now c key k o early h =
    elim (look_at-Dropped now c key k (get c.entries key) refl) [
      | inl same ↦ elim h [
        | inl held ↦ inl (same ∙ held)
        | inr (e, shape, late, gone) ↦ inr (e, shape, omega (arith, late, early), same ∙ gone)
      ]
      | inr (e, stored, late, gone) ↦ elim h [
        | inl held ↦ inr (e, sym held ∙ stored, late, gone)
        | inr (e', shape, late', gone') ↦ absurd (ground arith)
      ]
    ]

store-Holds :
    (first now : ℕ) (c : MemoryCache) (key k value : Text) (ttl : ℕ) (o : Option Entry)
    → first ≤ now
    → Holds first c k o
    → Holds now (store now c key value ttl) k (next_set k (set_call now key value ttl) o)
unfolding store
store-Holds first now c key k value ttl o early h =
    let new : Entry = record { value = value; expires_at = now + ttl } in
    let read = get-put c.entries key k new in
    elim (Bool-cases (text_eq key k)) [
      | inl same ↦ inl (ground (arith, read))
      | inr other ↦ elim h [
        | inl held ↦ inl (ground (arith, read))
        | inr (e, shape, late, gone) ↦
            inr (e, ground arith, omega (arith, late, early), ground (arith, read))
      ]
    ]

run-Holds :
    (first last : ℕ) (calls : List Call) (c : MemoryCache) (k : Text) (o : Option Entry)
    → IsTimed first calls last
    → Holds first c k o
    → Holds last (run calls c) k (last_set k calls o)
run-Holds first last [] c k o timed h = elim h [
  | inl held ↦ inl held
  | inr (e, shape, late, gone) ↦ inr (e, shape, omega (arith, late, timed), gone)
]
run-Holds first last (get_call now key ∷ calls) c k o timed h =
    run-Holds now last calls (lookup now c key).0 k o timed.1
      (lookup-Holds first now c key k o timed.0 h)
run-Holds first last (set_call now key value ttl ∷ calls) c k o timed h =
    run-Holds now last calls (store now c key value ttl) k
      (next_set k (set_call now key value ttl) o) timed.1
      (store-Holds first now c key k value ttl o timed.0 h)

found_of_held :
    (now : ℕ) (c : MemoryCache) (k : Text) (o : Option Entry)
    → Holds now c k o
    → (lookup now c k).1 ≡ fresh_value now o
unfolding lookup
found_of_held now c k none (inl held) = ground arith
found_of_held now c k (some e) (inl held) = ground arith
found_of_held now c k o (inr (e, shape, late, gone)) = ground arith

-- After calls made one after another from the new cache, a lookup not before them answers with the
-- value of the last `Set` for its key, if there is one and its expiry is not past, and else with
-- nothing.
pub lookup-run :
    (calls : List Call) (now : ℕ) (k : Text)
    → IsTimed 0 calls now
    → (lookup now (run calls new_memory_cache) k).1 ≡ fresh_value now (last_set k calls none)
unfolding get
lookup-run calls now k timed =
    found_of_held now (run calls new_memory_cache) k (last_set k calls none)
      (run-Holds 0 now calls new_memory_cache k none timed (inl refl))
