-- ===== src/Cache.antt =====
-- The cache in memory (gateway-go/internal/cache/cache.go), with the two labels of its counter. The
-- clock's readings are arguments; an expiry is the sum that `Set` computes.
pub mod Expiry
pub mod Contract
pub mod Redis
mod Tests
use financial_ai_platform.Prelude.{
  ℕ, suc, ◌+◌, if◌then◌else◌, ltb, Option, none, some, [], Text, Dict, get, put, remove,
}

pub record Entry : Type 0 where
  pub value : Text
  pub expires_at : ℕ

pub record MemoryCache : Type 0 where
  pub entries : Dict Entry
  pub hits : ℕ
  pub misses : ℕ

abbrev pub new_memory_cache : MemoryCache
new_memory_cache = record { entries = []; hits = 0; misses = 0 }

abbrev pub miss : MemoryCache → MemoryCache × Option Text
miss c = (record c { misses = suc c.misses }, none)

-- An expired entry is deleted, and counts as a miss.
abbrev pub look_at : ℕ → MemoryCache → Text → Option Entry → MemoryCache × Option Text
look_at now c key none = miss c
look_at now c key (some e) =
    if ltb e.expires_at now
    then miss (record c { entries = remove c.entries key })
    else (record c { hits = suc c.hits }, some e.value)

unfoldable pub lookup : ℕ → MemoryCache → Text → MemoryCache × Option Text
lookup now c key = look_at now c key (get c.entries key)

-- `ttl` is not negative.
unfoldable pub store : ℕ → MemoryCache → Text → Text → ℕ → MemoryCache
store now c key value ttl = record c {
  entries = put c.entries key (record { value = value; expires_at = now + ttl });
}
