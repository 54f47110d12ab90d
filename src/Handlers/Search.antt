-- ===== src/Handlers/Search.antt =====
-- The search route, gateway-go/internal/handlers/search.go: the answer from the cache, or from the
-- searcher (internal/search).
pub mod Parameters
pub mod Between
pub mod Cached
mod Tests
use financial_ai_platform.Prelude.{
  ℕ, List, map, Option, none, some, ◌++◌, Text, lit, is_empty, Result, ok, err, ◌>>=◌, ◌>>◌,
  fail_if, ℤ,
}
use financial_ai_platform.Cache.Contract.{Cache}
use financial_ai_platform.Ingestion.Records.{InferredMetadata}
use financial_ai_platform.Handlers.{status_ok, status_bad_request, status_internal_server_error}
use financial_ai_platform.Handlers.Documents.{metadata_view}
use financial_ai_platform.Handlers.Search.Parameters.{
  SearchRequest, SearchMode, MetadataFilter, parse_top_k, parse_search_mode, build_metadata_filter,
  cache_key,
}

-- What the searcher answers: F is the type of floating-point numbers.
pub record Chunk : Type 0 where
  pub chunk_id : Text
  pub document_id : Text
  pub text : Text
  pub metadata : Option InferredMetadata

pub record SearchResult (F : Type 0) : Type 0 where
  pub chunk : Chunk
  pub score : F

pub record SearchResponse (F : Type 0) : Type 0 where
  pub results : List (SearchResult F)
  pub search_latency_ms : F

pub record SearchResultView (F : Type 0) : Type 0 where
  pub chunk_id : Text
  pub document_id : Text
  pub text : Text
  pub score : F
  pub metadata : Option InferredMetadata

pub record SearchResponseView (F : Type 0) : Type 0 where
  pub results : List (SearchResultView F)
  pub search_latency_ms : F

abbrev pub proto_metadata_view : Option InferredMetadata → Option InferredMetadata
proto_metadata_view none = none
proto_metadata_view (some md) = metadata_view md

-- A view, the bytes that the cache holds, or an error.
pub data SearchReply (F : Type 0) : Type 0 where
  json : ℕ → SearchResponseView F → SearchReply F
  stored : ℕ → Text → SearchReply F
  error_json : ℕ → Text → SearchReply F

abbrev pub missing_query : Text
missing_query = lit "missing required query parameter 'q'"

abbrev pub bad_top_k : Text
bad_top_k = lit "top_k must be a positive integer"

abbrev pub search_failed : Text
search_failed = lit "search failed"

abbrev or_error {ℓ} : {E A : Type ℓ} → E → Option A → Result E A
or_error e none = err e
or_error e (some a) = ok a

abbrev pub result_view : {F : Type 0} → SearchResult F → SearchResultView F
result_view r = record {
  chunk_id = r.chunk.chunk_id;
  document_id = r.chunk.document_id;
  text = r.chunk.text;
  score = r.score;
  metadata = proto_metadata_view r.chunk.metadata;
}

abbrev pub response_view : {F : Type 0} → SearchResponse F → SearchResponseView F
response_view resp = record {
  results = map result_view resp.results;
  search_latency_ms = resp.search_latency_ms;
}

-- The searcher, for one call: `none` is an error.
abbrev pub Searcher : Type 0 → Type 0
Searcher F = Text → ℤ → SearchMode → Option MetadataFilter → Option (SearchResponse F)

-- `quote` is fmt's verb %q.
module _ (quote : Text → Text) where
  abbrev pub bad_mode : Text → Text
  bad_mode raw = lit "invalid mode " ++ (quote raw ++ lit ": must be semantic, keyword, or hybrid")

  -- The checks of the parameters, with the message of the first that fails.
  unfoldable pub checked : SearchRequest → Result Text (ℤ × SearchMode)
  unfolding parse_top_k parse_search_mode
  checked req = do
    fail_if (is_empty req.q) missing_query
    top_k ← or_error bad_top_k (parse_top_k req.top_k)
    mode ← or_error (bad_mode req.mode) (parse_search_mode req.mode)
    ok (top_k, mode)

  -- `marshal` is json.Marshal on the view.
  module _ {F : Type 0} (marshal : SearchResponseView F → Option Text) (c : Cache)
      (cache_ttl : ℕ) where
    -- A view that cannot be encoded is not stored.
    remember : ℕ → c.Store → Text → SearchResponseView F → c.Store
    remember now store key view = elim (marshal view) [
      | none ↦ store
      | some raw ↦ c.set now store key raw cache_ttl
    ]

    ask : Searcher F → ℕ → c.Store → SearchRequest → ℤ → SearchMode → c.Store × SearchReply F
    unfolding remember build_metadata_filter cache_key
    ask searcher now store req top_k mode =
        elim (searcher req.q top_k mode
          (build_metadata_filter req.tickers req.filing_types req.fiscal_period)) [
            | none ↦ (store, error_json status_internal_server_error search_failed)
            | some resp ↦ (
              remember now store (cache_key req top_k mode) (response_view resp),
              json status_ok (response_view resp),
            )
          ]

    pub answer :
        Searcher F
        → ℕ
        → SearchRequest
        → ℤ
        → SearchMode
        → c.Store × Option Text
        → c.Store × SearchReply F
    unfolding ask
    answer searcher now req top_k mode (store, none) = ask searcher now store req top_k mode
    answer searcher now req top_k mode (store, some cached) = (store, stored status_ok cached)

    -- The cache is read at the first time, and written at the second.
    unfoldable pub search : Searcher F → ℕ → ℕ → c.Store → SearchRequest → c.Store × SearchReply F
    unfolding checked answer
    search searcher now later store req = elim (checked req) [
      | err message ↦ (store, error_json status_bad_request message)
      | ok (top_k, mode) ↦
          answer searcher later req top_k mode (c.lookup now store (cache_key req top_k mode))
    ]
