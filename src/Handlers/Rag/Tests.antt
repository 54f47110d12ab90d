-- ===== src/Handlers/Rag/Tests.antt =====
-- Concrete questions and summaries.
use financial_ai_platform.Prelude.{
  ℕ, ◌≡◌, refl, arith, none, some, List, [], ◌∷◌, Option, Text, lit, get, text_eq, ok, pos,
}
use financial_ai_platform.Conversation.{new_memory_store, history}
use financial_ai_platform.Conversation.Contract.{memory_store}
use financial_ai_platform.MlClient.{QueryEvent, token, final}
use financial_ai_platform.Handlers.Rag.Messages.{
  user, assistant, QueryRequestBody, QueryRequest, QueryFinal,
}
use financial_ai_platform.Handlers.Rag.{resolve_history, request_of, query_request, query}
use financial_ai_platform.Handlers.Rag.FollowUp.{query_follow_up}

abbrev quote : Text → Text
quote raw = raw

abbrev last : QueryFinal ℕ
last = record { citations = []; usage = none; latency_ms = 7 }

abbrev answer_events : List (QueryEvent (QueryFinal ℕ))
answer_events = token (lit "4") ∷ token (lit "2") ∷ final last ∷ []

abbrev asks : Text → QueryRequestBody
asks question = record {
  session_id = lit "s1";
  question = question;
  history = [];
  top_k = pos 0;
  tickers = [];
  filing_types = [];
  fiscal_period = [];
}

abbrev answers : QueryRequest → Option (List (QueryEvent (QueryFinal ℕ)))
answers req = some answer_events

-- The second question is asked with the first and its answer.
query_follow_up_example :
    query_request quote
      (memory_store 100)
      9
      []
      (ok (asks (lit "Why?")))
      (query quote (memory_store 100) answers 1 2 [] (ok (asks (lit "What?"))) new_memory_store).0
    ≡ ok (record {
      session_id = lit "s1";
      question = lit "Why?";
      history =
          (record { role = user; content = lit "What?" })
          ∷ (record { role = assistant; content = lit "42" })
          ∷ [];
      filter = none;
      top_k = pos 0;
    })
unfolding query_request resolve_history history get text_eq
query_follow_up_example =
    query_follow_up quote (memory_store 100) answers 1 2 9 [] [] (asks (lit "What?"))
      (asks (lit "Why?")) new_memory_store (request_of (lit "s1") (asks (lit "What?")) []) []
      (lit "4" ∷ lit "2" ∷ []) last [] refl refl refl refl refl (omega arith) (omega arith)
