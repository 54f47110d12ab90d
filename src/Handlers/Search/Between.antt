-- ===== src/Handlers/Search/Between.antt =====
-- A cached answer while other searches are served, gateway-go/internal/handlers/search.go.
use financial_ai_platform.Prelude.{
  ℕ, ◌≤◌, ◌<◌, ◌≡◌, ◌⊎◌, inl, inr, refl, ap, ◌∙◌, arith, Bool-cases, List, [], ◌∷◌, Option, none,
  some, Option-cases, Result-cases, Text, text_eq, text_eq_iff, ok, ℤ,
}
use financial_ai_platform.Cache.Contract.{Cache}
use financial_ai_platform.Handlers.Search.Parameters.{
  SearchRequest, SearchMode, build_metadata_filter, cache_key,
}
use financial_ai_platform.Handlers.Search.{
  SearchResponseView, Searcher, response_view, checked, remember, ask, answer, search,
}

-- A search with the times of its lookup and of its Set, and what the searcher would answer.
pub record Visit (F : Type 0) : Type 0 where
  pub searcher : Searcher F
  pub now : ℕ
  pub later : ℕ
  pub request : SearchRequest

-- The lookups of the searches follow each other between two times.
abbrev pub InOrder : {F : Type 0} → ℕ → List (Visit F) → ℕ → Type 0
InOrder from [] to = from ≤ to
InOrder from (v ∷ visits) to = (from ≤ v.now) × InOrder v.now visits to

InOrder-bounds : {F : Type 0} (from to : ℕ) (vs : List (Visit F)) → InOrder from vs to → from ≤ to
InOrder-bounds from to [] h = h
InOrder-bounds from to (v ∷ vs) (h, hs) = let rest = InOrder-bounds v.now to vs hs in omega arith

module _ (quote : Text → Text) {F : Type 0} (marshal : SearchResponseView F → Option Text)
    (c : Cache) (cache_ttl : ℕ) where
  unfoldable pub search_all : List (Visit F) → c.Store → c.Store
  search_all [] store = store
  search_all (v ∷ visits) store =
      search_all visits
        (search quote marshal c cache_ttl v.searcher v.now v.later store v.request).0

  -- A search with valid parameters looks its key up first.
  pub search-answer :
      (searcher : Searcher F) (now later : ℕ) (store : c.Store) (req : SearchRequest) (top_k : ℤ)
      (mode : SearchMode)
      → checked quote req ≡ ok (top_k, mode)
      → search quote marshal c cache_ttl searcher now later store req
        ≡ answer quote marshal c cache_ttl searcher later req top_k mode
            (c.lookup now store (cache_key req top_k mode))
  unfolding search
  search-answer searcher now later store req top_k mode valid = rw (valid, search) refl

  -- Behind its lookup, a search leaves the cache alone, or it was a miss and sets its own key.
  answer_cases :
      (searcher : Searcher F) (later : ℕ) (req : SearchRequest) (top_k : ℤ) (mode : SearchMode)
      (looked : c.Store × Option Text)
      → let after = (answer quote marshal c cache_ttl searcher later req top_k mode looked).0 in
        (after ≡ looked.0)
        ⊎ ((value : Text) × (looked.1 ≡ none)
            × (after ≡ c.set later looked.0 (cache_key req top_k mode) value cache_ttl))
  unfolding answer ask remember
  answer_cases searcher later req top_k mode (store, some cached) = inl refl
  answer_cases searcher later req top_k mode (store, none) =
      let filter = build_metadata_filter req.tickers req.filing_types req.fiscal_period in
      elim (Option-cases (searcher req.q top_k mode filter)) [
        | inl e ↦ inl (ground arith)
        | inr (resp, e) ↦ elim (Option-cases (marshal (response_view resp))) [
          | inl f ↦ inl (ground arith)
          | inr (raw, f) ↦ inr (raw, refl, ground arith)
        ]
      ]

  module _ (key raw : Text) (until : ℕ) where
    -- From a time on, the key is found with the value, up to the end.
    abbrev pub Holds : ℕ → c.Store → Type 0
    Holds from store = (t : ℕ) → from ≤ t → t < until → (c.lookup t store key).1 ≡ some raw

    answer-Holds :
        (v : Visit F) (store : c.Store) (top_k : ℤ) (mode : SearchMode)
        → v.now < until
        → Holds v.now store
        → Holds v.now
            (answer quote marshal c cache_ttl v.searcher v.later v.request top_k mode
              (c.lookup v.now store (cache_key v.request top_k mode))).0
    answer-Holds v store top_k mode early holds t h h' =
        let own = cache_key v.request top_k mode in
        let looked = c.lookup v.now store own in
        let kept = c.lookup-lookup store v.now t key own h ∙ holds t h h' in
        elim (answer_cases v.searcher v.later v.request top_k mode looked) [
          | inl same ↦ ap (λ (s : c.Store). (c.lookup t s key).1) same ∙ kept
          | inr (value, missed, set) ↦ elim (Bool-cases (text_eq own key)) [
            | inl equal ↦
                let same : own ≡ key = (text_eq_iff own key).0 equal in
                let hit : (c.lookup v.now store own).1 ≡ some raw =
                  ap (λ (k : Text). (c.lookup v.now store k).1) same
                  ∙ holds v.now (omega arith) early in
                absurd (cc (missed, hit))
            | inr other ↦
                ap (λ (s : c.Store). (c.lookup t s key).1) set
                ∙ c.lookup-set_other looked.0 v.later t key own value cache_ttl other
                ∙ kept
          ]
        ]

    search-Holds :
        (v : Visit F) (store : c.Store)
        → v.now < until
        → Holds v.now store
        → Holds v.now (search quote marshal c cache_ttl v.searcher v.now v.later store v.request).0
    unfolding search
    search-Holds v store early holds = elim (Result-cases (checked quote v.request)) [
      | inr (message, e) ↦ λ t h h'. rw (e, search) (holds t h h')
      | inl ((top_k, mode), e) ↦ λ t h h'.
          ap (λ r. (c.lookup t r.0 key).1)
            (search-answer v.searcher v.now v.later store v.request top_k mode e)
          ∙ answer-Holds v store top_k mode early holds t h h'
    ]

    -- Searches in between, whatever their keys are, keep the value.
    pub search_all-Holds :
        (visits : List (Visit F)) (from to : ℕ) (store : c.Store)
        → InOrder from visits to
        → to < until
        → Holds from store
        → (c.lookup to (search_all visits store) key).1 ≡ some raw
    unfolding search_all
    search_all-Holds [] from to store order early holds = holds to order early
    search_all-Holds (v ∷ visits) from to store (order, orders) early holds =
        let bound = InOrder-bounds v.now to visits orders in
        let fresh : v.now < until = omega arith in
        search_all-Holds visits v.now to
          (search quote marshal c cache_ttl v.searcher v.now v.later store v.request).0 orders early
          (search-Holds v store fresh (λ t h h'. holds t (omega arith) h'))
