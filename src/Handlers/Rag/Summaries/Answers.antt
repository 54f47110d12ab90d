-- ===== src/Handlers/Rag/Summaries/Answers.antt =====
-- What a summary is answered with, gateway-go/internal/handlers/rag.go over the client of
-- gateway-go/internal/mlclient/client.go.
use financial_ai_platform.Prelude.{
  ◌≡◌, ◌≢◌, ◌⊎◌, refl, sym, ap, ◌∙◌, arith, inl, inr, ◌==◌, Bool-cases, some, Option-cases, [], ◌∷◌,
  Text, lit, text_eq, text_eq_iff, Result, ok, err, Result-cases,
}
use financial_ai_platform.MlClient.Unary.{
  Failure, not_found, SummaryType, executive, risk, revenue, sentiment, SummarizeRequest,
}
use financial_ai_platform.MlClient.Unary as Client
use financial_ai_platform.Handlers.{
  Reply, json, error_json, status_ok, status_bad_request, status_not_found,
  status_internal_server_error,
}
use financial_ai_platform.Handlers.Rag.Summaries.{
  SummarizeResponse, SummarizeResponseView, summary_view, parse_summary_type, no_chunks,
  summarize_failed, summarized, bad_type, summarize,
}

-- The names of a type of summary in a request; no type is the first.
abbrev pub Names : SummaryType → Text → Type 0
Names executive raw = (raw ≡ []) ⊎ (raw ≡ lit "executive")
Names risk raw = raw ≡ lit "risk"
Names revenue raw = raw ≡ lit "revenue"
Names sentiment raw = raw ≡ lit "sentiment"

parse_summary_type-Names :
    (raw : Text) (type : SummaryType) → parse_summary_type raw ≡ some type → Names type raw
unfolding parse_summary_type
parse_summary_type-Names [] executive h = inl refl
parse_summary_type-Names (c ∷ raw) executive h =
    inr (ground (arith, text_eq_iff (c ∷ raw) (lit "executive")))
parse_summary_type-Names raw risk h = ground (arith, text_eq_iff raw (lit "risk"))
parse_summary_type-Names raw revenue h = ground (arith, text_eq_iff raw (lit "revenue"))
parse_summary_type-Names raw sentiment h = ground (arith, text_eq_iff raw (lit "sentiment"))

Names-parse :
    (raw : Text) (type : SummaryType) → Names type raw → parse_summary_type raw ≡ some type
unfolding parse_summary_type text_eq
Names-parse raw executive (inl e) = ap parse_summary_type e
Names-parse raw executive (inr e) = ap parse_summary_type e
Names-parse raw risk e = ap parse_summary_type e
Names-parse raw revenue e = ap parse_summary_type e
Names-parse raw sentiment e = ap parse_summary_type e

module _ (quote : Text → Text) {F : Type 0}
    (rpc : SummarizeRequest → Result Failure (SummarizeResponse F)) (document_id raw : Text) where
  abbrev pub reply : Reply (SummarizeResponseView F)
  reply = summarize quote (Client.summarize rpc) document_id raw

  -- How the ML service's answer to a request is passed on.
  abbrev pub Answers : SummaryType → Type 0
  Answers type =
      ((resp : SummarizeResponse F) × (rpc (record { document_id = document_id; type = type })
          ≡ ok resp)
        × (reply ≡ json status_ok (summary_view resp)))
      ⊎ ((f : Failure) × (rpc (record { document_id = document_id; type = type }) ≡ err f)
          × (f.code ≡ not_found)
          × (reply ≡ error_json status_not_found no_chunks))
      ⊎ ((f : Failure) × (rpc (record { document_id = document_id; type = type }) ≡ err f)
          × (f.code ≢ not_found)
          × (reply ≡ error_json status_internal_server_error summarize_failed))

  answers : (type : SummaryType) → parse_summary_type raw ≡ some type → Answers type
  unfolding summarize Client.summarize
  answers type e =
      let req : SummarizeRequest = record { document_id = document_id; type = type } in
      let asked : reply ≡ summarized (Client.summarize rpc document_id type) =
        rw (e, summarize) refl in
      elim (Result-cases (rpc req)) [
        | inl (resp, f) ↦ inl (resp, f, ground arith)
        | inr (f, g) ↦ elim (Bool-cases (f.code == not_found)) [
          | inl same ↦ inr (inl (f, g, ground arith, ground arith))
          | inr other ↦ inr (inr (f, g, ground arith, ground arith))
        ]
      ]

  -- A request that names a type of summary, the empty name standing for the executive one, is answered
  -- with what the ML service answers for the document and this type, with 404 if its code is NotFound, and
  -- with 500 for any other error; any other name is answered with 400.
  pub summarize_cases :
      ((type : SummaryType) × Names type raw × Answers type)
      ⊎ (((type : SummaryType) → Names type raw → ⊥)
          × (reply ≡ error_json status_bad_request (bad_type quote raw)))
  unfolding summarize Client.summarize
  summarize_cases = elim (Option-cases (parse_summary_type raw)) [
    | inl e ↦ inr (
      λ (type : SummaryType) (h : Names type raw). absurd (cc (sym e ∙ Names-parse raw type h)),
      ground arith,
    )
    | inr (type, e) ↦ inl (type, parse_summary_type-Names raw type e, answers type e)
  ]
