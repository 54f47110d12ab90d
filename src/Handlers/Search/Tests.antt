-- ===== src/Handlers/Search/Tests.antt =====
-- Concrete searches.
use financial_ai_platform.Prelude.{
  List, ◌∷◌, ℕ, ◌-◌, ◌^◌, ◌<◌, ◌≤◌, ◌⊎◌, negsuc, ◌≡◌, refl, arith, Option, none, some, [], Text,
  lit, get, to_lower, ok, pos, format,
}
use financial_ai_platform.Cache.{new_memory_cache, lookup}
use financial_ai_platform.Cache.Contract.{memory_cache}
use financial_ai_platform.Handlers.{status_ok}
use financial_ai_platform.Handlers.Search.Parameters.{
  SearchRequest, hybrid, parse_top_k, parse_search_mode,
}
use financial_ai_platform.Handlers.Search.Parameters.TopK.{parse_top_k-format}
use financial_ai_platform.Handlers.Search.{
  SearchResponse, SearchResponseView, json, stored, Searcher, response_view, checked, search,
}
use financial_ai_platform.Handlers.Search.Between.{Visit, search_all}
use financial_ai_platform.Handlers.Search.Cached.{search_same_key, search_collision}

-- 2 ^ 32 results are 0 of them.
parse_top_k-format_example :
    ((0 < 2 ^ 31) × (parse_top_k (format (2 ^ 32)) ≡ some (pos 0)))
    ⊎ ((2 ^ 31 ≤ 0) × (parse_top_k (format (2 ^ 32)) ≡ some (negsuc (2 ^ 32 - 1))))
parse_top_k-format_example = parse_top_k-format (2 ^ 32) (omega arith) (omega arith)

abbrev request : SearchRequest
request = record {
  q = lit "debt";
  top_k = [];
  mode = [];
  tickers = lit "A|B";
  filing_types = lit "C";
  fiscal_period = [];
}

-- An encoder that yields one text, and a searcher that finds nothing.
abbrev encode : SearchResponseView ℕ → Option Text
encode view = some (lit "{}")

abbrev nothing : SearchResponse ℕ
nothing = record { results = []; search_latency_ms = 3 }

abbrev searcher : Searcher ℕ
searcher q top_k mode filter = some nothing

abbrev elsewhere : Searcher ℕ
elsewhere q top_k mode filter = none

abbrev quote : Text → Text
quote raw = raw

request_valid : checked quote request ≡ ok (pos 10, hybrid)
unfolding checked parse_top_k parse_search_mode to_lower
request_valid = refl

first_search : search quote encode memory_cache 30 searcher 0 1 new_memory_cache request ≡ (
  (search quote encode memory_cache 30 searcher 0 1 new_memory_cache request).0,
  json status_ok (response_view nothing),
)
unfolding search checked parse_top_k parse_search_mode to_lower lookup get
first_search = refl

-- The same search again, and one of its own key.
abbrev visits : List (Visit ℕ)
visits =
    record { searcher = elsewhere; now = 5; later = 6; request = request }
    ∷ record {
      searcher = searcher;
      now = 9;
      later = 9;
      request = record request { q = lit "cash" };
    }
    ∷ []

search_same_key_example :
    (search quote encode memory_cache 30 elsewhere 20 21
      (search_all quote encode memory_cache 30 visits
        (search quote encode memory_cache 30 searcher 0 1 new_memory_cache request).0)
      request).1
    ≡ stored status_ok (lit "{}")
unfolding search
search_same_key_example =
    search_same_key quote encode memory_cache 30 searcher elsewhere 0 1 20 21 new_memory_cache
      (search quote encode memory_cache 30 searcher 0 1 new_memory_cache request).0 request request
      (pos 10) (pos 10) hybrid hybrid (response_view nothing) (lit "{}") visits request_valid
      request_valid refl refl first_search (omega arith, (omega arith, omega arith)) (omega arith)

search_collision_example :
    (search quote encode memory_cache 30 elsewhere 20 21
      (search quote encode memory_cache 30 searcher 0 1 new_memory_cache request).0
      (record request { tickers = lit "A"; filing_types = lit "B|C" })).1
    ≡ stored status_ok (lit "{}")
unfolding search
search_collision_example =
    search_collision quote encode memory_cache 30 searcher elsewhere 0 1 20 21 new_memory_cache
      (search quote encode memory_cache 30 searcher 0 1 new_memory_cache request).0 request
      (lit "A") (lit "B") (lit "C") (pos 10) hybrid (response_view nothing) (lit "{}") request_valid
      refl first_search (omega arith) (omega arith)
