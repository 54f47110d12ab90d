-- ===== src/Handlers/Search/Parameters.antt =====
-- The parameters of a search, and the filter and the cache key that they make,
-- gateway-go/internal/handlers/search.go.
pub mod Parts
pub mod TopK
use financial_ai_platform.Prelude.{
  ℕ, Bool, true, false, ◌&&◌, if◌then◌else◌, ltb, ◌==◌, split, List, [], ◌∷◌, ◌++◌, Option, none,
  some, Text, lit, text_eq, is_empty, to_lower, trim_space, ℤ, pos, negsuc, wrap, atoi, format_int,
}

-- The query parameters; one that is missing is the empty text.
pub record SearchRequest : Type 0 where
  pub q : Text
  pub top_k : Text
  pub mode : Text
  pub tickers : Text
  pub filing_types : Text
  pub fiscal_period : Text

-- The enumeration of the protocol, with the names that it prints.
pub data SearchMode : Type 0 where
  hybrid semantic keyword : SearchMode

abbrev pub mode_name : SearchMode → Text
mode_name hybrid = lit "SEARCH_MODE_HYBRID"
mode_name semantic = lit "SEARCH_MODE_SEMANTIC"
mode_name keyword = lit "SEARCH_MODE_KEYWORD"

abbrev pub default_search_top_k : ℕ
default_search_top_k = 10

-- A positive `int`, converted to `int32`.
abbrev pub positive_int32 : Option ℤ → Option ℤ
positive_int32 none = none
positive_int32 (some (negsuc n)) = none
positive_int32 (some (pos n)) = if ltb 0 n then some (wrap 31 (pos n)) else none

unfoldable pub parse_top_k : Text → Option ℤ
parse_top_k raw =
    if is_empty raw then some (pos default_search_top_k) else positive_int32 (atoi raw)

unfoldable pub parse_search_mode : Text → Option SearchMode
parse_search_mode raw =
    let mode = to_lower raw in
    if is_empty mode
    then some hybrid
    else if text_eq mode (lit "hybrid")
    then some hybrid
    else if text_eq mode (lit "semantic")
    then some semantic
    else if text_eq mode (lit "keyword")
    then some keyword
    else none

abbrev keep : Text → List Text → List Text
keep trimmed rest = if is_empty trimmed then rest else trimmed ∷ rest

-- The loop over the parts.
unfoldable pub trimmed_parts : List Text → List Text
trimmed_parts [] = []
trimmed_parts (p ∷ ps) = keep (trim_space p) (trimmed_parts ps)

unfoldable pub split_csv : Text → List Text
unfolding split trimmed_parts
split_csv raw = if is_empty raw then [] else trimmed_parts (split b',' raw)

pub record MetadataFilter : Type 0 where
  pub tickers : List Text
  pub filing_types : List Text
  pub fiscal_period : Text

abbrev pub is_nil : List Text → Bool
is_nil [] = true
is_nil (p ∷ ps) = false

-- `nil` stands for no filter.
abbrev pub filter_of : List Text → List Text → Text → Option MetadataFilter
filter_of tickers filing_types fiscal_period =
    if is_nil tickers && is_nil filing_types && is_empty fiscal_period
    then none
    else some
        (record { tickers = tickers; filing_types = filing_types; fiscal_period = fiscal_period })

unfoldable pub build_metadata_filter : Text → Text → Text → Option MetadataFilter
unfolding split_csv
build_metadata_filter tickers_csv filing_types_csv fiscal_period =
    filter_of (split_csv tickers_csv) (split_csv filing_types_csv) fiscal_period

-- Each text behind a bar.
abbrev pub barred : List Text → Text
barred [] = []
barred (p ∷ ps) = b'|' ∷ (p ++ barred ps)

-- The format "search:%s|%s|%d|%s|%s|%s".
unfoldable pub cache_key : SearchRequest → ℤ → SearchMode → Text
unfolding format_int
cache_key req top_k mode =
    lit "search:"
    ++ (req.q
        ++ barred (
            mode_name mode
            ∷ format_int top_k
            ∷ req.tickers
            ∷ req.filing_types
            ∷ req.fiscal_period
            ∷ []))
