-- ===== src/Handlers/Search/Cached.antt =====
-- What the cache makes of two searches, gateway-go/internal/handlers/search.go.
use financial_ai_platform.Prelude.{
  ℕ, ◌+◌, ◌≤◌, ◌<◌, ◌≡◌, sym, ap, ◌∙◌, arith, Option, none, some, Option-cases, inl, inr, List, [],
  ◌∷◌, ◌++◌, Text, ok, ℤ,
}
use mathlib.Core.List.{append_assoc}
use financial_ai_platform.Handlers.Search.Between.{
  Visit, InOrder, search_all, search-answer, Holds, search_all-Holds,
}
use financial_ai_platform.Cache.Contract.{Cache}
use financial_ai_platform.Handlers.{status_ok}
use financial_ai_platform.Handlers.Search.Parameters.{
  SearchRequest, SearchMode, build_metadata_filter, cache_key,
}
use financial_ai_platform.Handlers.Search.{
  SearchResponseView, json, stored, Searcher, checked, remember, ask, answer, search,
}

same_key :
    (req : SearchRequest) (a b f : Text) (top_k : ℤ) (mode : SearchMode)
    → cache_key (record req { tickers = a ++ (b'|' ∷ b); filing_types = f }) top_k mode
      ≡ cache_key (record req { tickers = a; filing_types = b ++ (b'|' ∷ f) }) top_k mode
unfolding cache_key
same_key req a b f top_k mode = simp (append_assoc)

module _ (quote : Text → Text) {F : Type 0} (marshal : SearchResponseView F → Option Text)
    (c : Cache) (cache_ttl : ℕ) where
  -- An answer from the searcher is stored under the key.
  answer-set :
      (searcher : Searcher F) (later : ℕ) (req : SearchRequest) (top_k : ℤ) (mode : SearchMode)
      (looked : c.Store × Option Text) (store' : c.Store) (view : SearchResponseView F) (raw : Text)
      → marshal view ≡ some raw
      → answer quote marshal c cache_ttl searcher later req top_k mode looked
        ≡ (store', json status_ok view)
      → store' ≡ c.set later looked.0 (cache_key req top_k mode) raw cache_ttl
  unfolding answer ask remember
  answer-set searcher later req top_k mode (store, some cached) store' view raw encoded h =
      absurd (ground arith)
  answer-set searcher later req top_k mode (store, none) store' view raw encoded h =
      let filter = build_metadata_filter req.tickers req.filing_types req.fiscal_period in
      elim (Option-cases (searcher req.q top_k mode filter)) [
        | inl e ↦ absurd (ground arith)
        | inr (resp, e) ↦ ground arith
      ]

  answer-hit :
      (searcher : Searcher F) (later : ℕ) (req : SearchRequest) (top_k : ℤ) (mode : SearchMode)
      (looked : c.Store × Option Text) (raw : Text)
      → looked.1 ≡ some raw
      → (answer quote marshal c cache_ttl searcher later req top_k mode looked).1
        ≡ stored status_ok raw
  unfolding answer
  answer-hit searcher later req top_k mode (store, none) raw h = absurd (ground arith)
  answer-hit searcher later req top_k mode (store, some cached) raw h = ground arith

  -- After a search was answered with a view that can be encoded, every search with the same key is
  -- answered with that view until the time to live has passed, whatever the searcher would answer, and
  -- whatever searches are served in between.
  pub search_same_key :
      (searcher searcher' : Searcher F) (now later again after : ℕ) (store store' : c.Store)
      (req req' : SearchRequest) (top_k top_k' : ℤ) (mode mode' : SearchMode)
      (view : SearchResponseView F) (raw : Text) (between : List (Visit F))
      → checked quote req ≡ ok (top_k, mode)
      → checked quote req' ≡ ok (top_k', mode')
      → cache_key req top_k mode ≡ cache_key req' top_k' mode'
      → marshal view ≡ some raw
      → search quote marshal c cache_ttl searcher now later store req
        ≡ (store', json status_ok view)
      → InOrder later between again
      → again < later + cache_ttl
      → (search quote marshal c cache_ttl searcher' again after
          (search_all quote marshal c cache_ttl between store')
          req').1
        ≡ stored status_ok raw
  search_same_key searcher searcher' now later again after store store' req req' top_k top_k' mode
        mode' view raw between valid valid' same encoded h order fresh =
      let key = cache_key req top_k mode in
      let looked = c.lookup now store key in
      let kept : store' ≡ c.set later looked.0 key raw cache_ttl =
        answer-set searcher later req top_k mode looked store' view raw encoded (
          sym
            (search-answer quote marshal c cache_ttl searcher now later store req top_k mode valid)
          ∙ h) in
      let held : Holds quote marshal c cache_ttl key raw (later + cache_ttl) later store' =
        λ t from until.
          ap (λ (s : c.Store). (c.lookup t s key).1) kept
          ∙ c.lookup-set looked.0 later t key raw cache_ttl from until in
      let last = search_all quote marshal c cache_ttl between store' in
      let hit : (c.lookup again last (cache_key req' top_k' mode')).1 ≡ some raw =
        ap (λ (k : Text). (c.lookup again last k).1) (sym same)
        ∙ search_all-Holds quote marshal c cache_ttl key raw (later + cache_ttl) between later again
            store' order fresh held in
      ap (λ r. r.1)
        (search-answer quote marshal c cache_ttl searcher' again after last req' top_k' mode'
          valid')
      ∙ answer-hit searcher' after req' top_k' mode'
          (c.lookup again last (cache_key req' top_k' mode')) raw hit

  -- After a search for the tickers "a|b" and the filing types "f" was answered with a view that
  -- can be encoded, the same search for the tickers "a" and the filing types "b|f" is answered
  -- with that view until the time to live has passed.
  pub search_collision :
      (searcher searcher' : Searcher F) (now later again after : ℕ) (store store' : c.Store)
      (req : SearchRequest) (a b f : Text) (top_k : ℤ) (mode : SearchMode)
      (view : SearchResponseView F) (raw : Text)
      → checked quote req ≡ ok (top_k, mode)
      → marshal view ≡ some raw
      → search quote marshal c cache_ttl searcher now later store
          (record req { tickers = a ++ (b'|' ∷ b); filing_types = f })
        ≡ (store', json status_ok view)
      → later ≤ again
      → again < later + cache_ttl
      → (search quote marshal c cache_ttl searcher' again after store'
          (record req { tickers = a; filing_types = b ++ (b'|' ∷ f) })).1
        ≡ stored status_ok raw
  unfolding checked search_all
  search_collision searcher searcher' now later again after store store' req a b f top_k mode view
        raw valid encoded h order fresh =
      search_same_key searcher searcher' now later again after store store'
        (record req { tickers = a ++ (b'|' ∷ b); filing_types = f })
        (record req { tickers = a; filing_types = b ++ (b'|' ∷ f) }) top_k top_k mode mode view raw
        [] valid valid (same_key req a b f top_k mode) encoded h order fresh
