-- ===== src/Handlers/Rag/Summaries.antt =====
-- Summaries of documents, gateway-go/internal/handlers/rag.go.
pub mod Answers
use financial_ai_platform.Prelude.{
  ℕ, Bool, ◌||◌, if◌then◌else◌, ◌==◌, List, Option, none, some, Text, lit, ◌++◌, text_eq, is_empty,
  Result, ok, err,
}
use financial_ai_platform.MlClient.Unary.{
  Failure, not_found, SummaryType, executive, risk, revenue, sentiment,
}
use financial_ai_platform.Handlers.{
  Reply, json, error_json, status_ok, status_bad_request, status_not_found,
  status_internal_server_error,
}
use financial_ai_platform.Handlers.Rag.{usage_or_zero}
use financial_ai_platform.Handlers.Rag.Messages.{Citation, TokenUsage}

-- F is the type of floating-point numbers.
pub record SummarizeResponse (F : Type 0) : Type 0 where
  pub summary : Text
  pub citations : List Citation
  pub usage : Option TokenUsage
  pub latency_ms : F

pub record SummarizeResponseView (F : Type 0) : Type 0 where
  pub summary : Text
  pub citations : List Citation
  pub usage : TokenUsage
  pub latency_ms : F

abbrev pub summary_view : {F : Type 0} → SummarizeResponse F → SummarizeResponseView F
summary_view resp = record {
  summary = resp.summary;
  citations = resp.citations;
  usage = usage_or_zero resp.usage;
  latency_ms = resp.latency_ms;
}

unfoldable pub parse_summary_type : Text → Option SummaryType
parse_summary_type raw =
    if is_empty raw || text_eq raw (lit "executive")
    then some executive
    else if text_eq raw (lit "risk")
    then some risk
    else if text_eq raw (lit "revenue")
    then some revenue
    else if text_eq raw (lit "sentiment")
    then some sentiment
    else none

abbrev pub no_chunks : Text
no_chunks = lit "document has no embedded chunks"

abbrev pub summarize_failed : Text
summarize_failed = lit "summarize failed"

abbrev pub summarized :
    {F : Type 0} → Result Failure (SummarizeResponse F) → Reply (SummarizeResponseView F)
summarized (ok resp) = json status_ok (summary_view resp)
summarized (err f) =
    if f.code == not_found
    then error_json status_not_found no_chunks
    else error_json status_internal_server_error summarize_failed

-- `quote` is fmt's verb %q.
module _ (quote : Text → Text) where
  abbrev pub bad_type : Text → Text
  bad_type raw =
      lit "invalid type " ++ (quote raw ++ lit ": must be executive, risk, revenue, or sentiment")

  unfoldable pub summarize :
      {F : Type 0}
      → (Text → SummaryType → Result Failure (SummarizeResponse F))
      → Text
      → Text
      → Reply (SummarizeResponseView F)
  unfolding parse_summary_type
  summarize answerer document_id raw = elim (parse_summary_type raw) [
    | none ↦ error_json status_bad_request (bad_type raw)
    | some type ↦ summarized (answerer document_id type)
  ]
