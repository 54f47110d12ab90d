-- ===== src/Cache/Redis.antt =====
-- The cache in Redis (gateway-go/internal/cache/redis_cache.go). Redis is a parameter.
use financial_ai_platform.Prelude.{
  ℕ, suc, ◌+◌, ◌≤◌, ◌<◌, ◌≡◌, refl, sym, ap, ◌∙◌, false, Option, none, some, Text, text_eq,
}
use financial_ai_platform.Cache.Contract.{Cache}

-- GET, where `none` stands for a missing key and for any error, and SET with an expiry, whose error is
-- dropped. The laws are those of a server that can be reached and that evicts no key. Times are counted in
-- milliseconds, to which Redis keeps an expiry.
pub record Client : Type 1 where
  pub Server : Type 0
  pub get_value : ℕ → Server → Text → Option Text
  pub set_value : ℕ → Server → Text → Text → ℕ → Server
  pub get_value-set_value :
      (s : Server) (now later : ℕ) (key value : Text) (ttl : ℕ)
      → now ≤ later
      → later < now + ttl
      → get_value later (set_value now s key value ttl) key ≡ some value
  pub get_value-set_other :
      (s : Server) (now later : ℕ) (key key' value : Text) (ttl : ℕ)
      → text_eq key' key ≡ false
      → get_value later (set_value now s key' value ttl) key ≡ get_value later s key

module _ (client : Client) where
  -- The server with the counts of `requestsTotal`.
  pub record RedisCache : Type 0 where
    pub server : client.Server
    pub hits : ℕ
    pub misses : ℕ

  abbrev counted : RedisCache → Option Text → RedisCache × Option Text
  counted c none = (record c { misses = suc c.misses }, none)
  counted c (some value) = (record c { hits = suc c.hits }, some value)

  unfoldable pub lookup : ℕ → RedisCache → Text → RedisCache × Option Text
  lookup now c key = counted c (client.get_value now c.server key)

  unfoldable pub set : ℕ → RedisCache → Text → Text → ℕ → RedisCache
  set now c key value ttl = record c { server = client.set_value now c.server key value ttl }

  counted-value : (c : RedisCache) (o : Option Text) → (counted c o).1 ≡ o
  counted-value c none = refl
  counted-value c (some value) = refl

  pub lookup-set :
      (c : RedisCache) (now later : ℕ) (key value : Text) (ttl : ℕ)
      → now ≤ later
      → later < now + ttl
      → (lookup later (set now c key value ttl) key).1 ≡ some value
  unfolding lookup set
  lookup-set c now later key value ttl order fresh =
      counted-value (set now c key value ttl)
        (client.get_value later (client.set_value now c.server key value ttl) key)
      ∙ client.get_value-set_value c.server now later key value ttl order fresh

  counted-server : (c : RedisCache) (o : Option Text) → (counted c o).0.server ≡ c.server
  counted-server c none = refl
  counted-server c (some value) = refl

  -- GET leaves the server as it is.
  pub lookup_twice :
      (c : RedisCache) (now later : ℕ) (key key' : Text)
      → now ≤ later
      → (lookup later (lookup now c key').0 key).1 ≡ (lookup later c key).1
  unfolding lookup
  lookup_twice c now later key key' order =
      counted-value (lookup now c key').0 _
      ∙ ap (λ s. client.get_value later s key)
          (counted-server c (client.get_value now c.server key'))
      ∙ sym (counted-value c _)

  pub lookup-set_other :
      (c : RedisCache) (now later : ℕ) (key key' value : Text) (ttl : ℕ)
      → text_eq key' key ≡ false
      → (lookup later (set now c key' value ttl) key).1 ≡ (lookup later c key).1
  unfolding lookup set
  lookup-set_other c now later key key' value ttl other =
      counted-value (set now c key' value ttl) _
      ∙ client.get_value-set_other c.server now later key key' value ttl other
      ∙ sym (counted-value c _)

  abbrev pub redis_cache : Cache
  redis_cache = record {
    Store = RedisCache;
    lookup = lookup;
    set = set;
    lookup-set = lookup-set;
    lookup-lookup = lookup_twice;
    lookup-set_other = lookup-set_other;
  }
