-- ===== src/Handlers/Rag/FollowUp.antt =====
-- What a follow-up question is asked with, gateway-go/internal/handlers/rag.go.
use financial_ai_platform.Prelude.{
  ℕ, ◌+◌, ◌≤◌, ◌<◌, ◌≡◌, refl, ap, ◌∙◌, arith, inl, inr, List, [], ◌∷◌, ◌++◌, map, Option, some,
  none, Text, Result, Result-cases, ok, lit, text_eq, is_empty, if◌then◌else◌,
}
use financial_ai_platform.Conversation.{Turn, max_turns_per_session}
use financial_ai_platform.Conversation.Contract.{Store}
use financial_ai_platform.Conversation.Transcript.{last_of}
use financial_ai_platform.MlClient.{QueryEvent, final}
use financial_ai_platform.Handlers.Rag.Messages.{
  QueryRequestBody, QueryRequest, QueryFinal, ConversationTurn, user, assistant,
}
use financial_ai_platform.Handlers.Search.Parameters.{MetadataFilter, filter_of}
use financial_ai_platform.Handlers.Rag.{conversation_role_to_proto}
use financial_ai_platform.Handlers.Rag.Stream.{token_events, concat, stream_events_final}
use financial_ai_platform.Handlers.Rag.{
  answer_turns, proto_turn, stored_history, resolve_history, session_of, request_of, persist_turns,
  query_request, answered, query,
}

-- The session a question belongs to: the one it names, or else a new one.
abbrev pub own_or : Text → Text → Text
own_or minted named = if is_empty named then minted else named

-- A turn as the ML service is told it.
abbrev pub told : Turn → ConversationTurn
told turn = record {
  role = if text_eq turn.role (lit "assistant") then assistant else user;
  content = turn.content;
}

-- No lists and no period ask for no filter.
abbrev pub filter_asked : List Text → List Text → Text → Option MetadataFilter
filter_asked [] [] [] = none
filter_asked [] [] (c ∷ cs) =
    some (record { tickers = []; filing_types = []; fiscal_period = c ∷ cs })
filter_asked [] (kind ∷ kinds) period =
    some (record { tickers = []; filing_types = kind ∷ kinds; fiscal_period = period })
filter_asked (ticker ∷ tickers) kinds period =
    some (record { tickers = ticker ∷ tickers; filing_types = kinds; fiscal_period = period })

filter_asked-filter_of :
    (tickers kinds : List Text) (period : Text)
    → filter_of tickers kinds period ≡ filter_asked tickers kinds period
filter_asked-filter_of [] [] [] = refl
filter_asked-filter_of [] [] (c ∷ cs) = refl
filter_asked-filter_of [] (kind ∷ kinds) period = refl
filter_asked-filter_of (ticker ∷ tickers) kinds period = refl

map-told : (turns : List Turn) → map proto_turn turns ≡ map told turns
unfolding conversation_role_to_proto
map-told [] = refl
map-told (turn ∷ turns) = ap (λ (ts : List ConversationTurn). told turn ∷ ts) (map-told turns)

-- The request that `query_request_stored` finds, spelled out.
request_spelled :
    (id : Text) (body : QueryRequestBody) (turns : List Turn)
    → request_of id body (map proto_turn turns) ≡ (record {
      session_id = id;
      question = body.question;
      history = map told turns;
      filter = filter_asked body.tickers body.filing_types body.fiscal_period;
      top_k = body.top_k;
    })
request_spelled id body turns =
    ap (λ (history : List ConversationTurn). request_of id body history) (map-told turns)
    ∙ rw (filter_asked-filter_of body.tickers body.filing_types body.fiscal_period) refl

module _ (quote : Text → Text) (conversations : Store) where
  query_request-eq-ok :
      (now : ℕ) (minted : Text) (body : QueryRequestBody) (s : conversations.State)
      (req : QueryRequest)
      → query_request quote conversations now minted (ok body) s ≡ ok req
      → (req.session_id ≡ session_of minted body) × (req.question ≡ body.question)
  unfolding query_request
  query_request-eq-ok now minted body s req h =
      elim (Result-cases
        (resolve_history quote conversations now s (session_of minted body) body.history)) [
          | inl (history, e) ↦ (ground arith, ground arith)
          | inr (cause, e) ↦ absurd (ground arith)
        ]

  -- Without a history of its own, a question is asked with the stored one.
  query_request_stored :
      (now : ℕ) (minted : Text) (body : QueryRequestBody) (s : conversations.State) (id : Text)
      (turns : List Turn)
      → session_of minted body ≡ id
      → body.history ≡ []
      → conversations.history now s id ≡ ok turns
      → query_request quote conversations now minted (ok body) s
        ≡ ok (request_of id body (map proto_turn turns))
  unfolding query_request resolve_history
  query_request_stored now minted body s id turns same empty found =
      let resolved : resolve_history quote conversations now s (session_of minted body) body.history
          ≡ ok (map proto_turn turns) =
        rw (same, empty) (ap stored_history found) in
      rw resolved (ap (λ i. ok (request_of i body (map proto_turn turns))) same)

  module _ {F : Type 0} where
    query-answered :
        (answerer : QueryRequest → Option (List (QueryEvent (QueryFinal F)))) (now later : ℕ)
        (minted : Text) (decoded : Result Text QueryRequestBody) (s : conversations.State)
        (req : QueryRequest)
        → query_request quote conversations now minted decoded s ≡ ok req
        → query quote conversations answerer now later minted decoded s
          ≡ answered quote conversations later s req (answerer req)
    unfolding query
    query-answered answerer now later minted decoded s req h = rw (h, query) refl

    -- The turns of a finished answer are appended to its session.
    query-append_turns :
        (answerer : QueryRequest → Option (List (QueryEvent (QueryFinal F)))) (now later : ℕ)
        (minted : Text) (body : QueryRequestBody) (s : conversations.State) (req : QueryRequest)
        (ts : List Text) (f : QueryFinal F) (rest : List (QueryEvent (QueryFinal F)))
        → query_request quote conversations now minted (ok body) s ≡ ok req
        → answerer req ≡ some (token_events ts (final f ∷ rest))
        → (query quote conversations answerer now later minted (ok body) s).0
          ≡ conversations.append_turns later s
              (session_of minted body)
              (answer_turns later body.question (concat ts))
    unfolding answered persist_turns
    query-append_turns answerer now later minted body s req ts f rest asked came =
        let (id_eq, question_eq) = query_request-eq-ok now minted body s req asked in
        ap (λ r. r.0) (query-answered answerer now later minted (ok body) s req asked)
        ∙ ap (λ o. (answered quote conversations later s req o).0) came
        ∙ ap (λ r. persist_turns quote conversations later s req.session_id req.question r.1)
            (stream_events_final req.session_id ts [] f rest)
        ∙ ap
            (λ i.
              conversations.append_turns later s i (answer_turns later req.question (concat ts)))
            id_eq
        ∙ ap
            (λ q.
              conversations.append_turns later s (session_of minted body)
                (answer_turns later q (concat ts)))
            question_eq

    -- After a question was answered to the end, the next one in its session, without a history of its own
    -- and within the lifetime of the session, is asked with the last 20 turns of the old history, the
    -- question and the text of the streamed tokens.
    pub query_follow_up :
        (answerer : QueryRequest → Option (List (QueryEvent (QueryFinal F)))) (now later again : ℕ)
        (minted minted' : Text) (body body' : QueryRequestBody) (s : conversations.State)
        (req : QueryRequest) (old : List Turn) (ts : List Text) (f : QueryFinal F)
        (rest : List (QueryEvent (QueryFinal F)))
        → query_request quote conversations now minted (ok body) s ≡ ok req
        → answerer req ≡ some (token_events ts (final f ∷ rest))
        → conversations.history later s (own_or minted body.session_id) ≡ ok old
        → own_or minted' body'.session_id ≡ own_or minted body.session_id
        → body'.history ≡ []
        → later ≤ again
        → again < later + conversations.lifetime
        → query_request quote conversations again minted'
            (ok body')
            (query quote conversations answerer now later minted (ok body) s).0
          ≡ ok (record {
            session_id = own_or minted body.session_id;
            question = body'.question;
            history = map told (
                last_of 20 (
                  old
                  ++ ((record { role = lit "user"; content = body.question; created_at = later })
                      ∷ (record { role = lit "assistant"; content = concat ts; created_at = later })
                      ∷ [])));
            filter = filter_asked body'.tickers body'.filing_types body'.fiscal_period;
            top_k = body'.top_k;
          })
    query_follow_up answerer now later again minted minted' body body' s req old ts f rest asked
          came known same empty order fresh =
        let turns = answer_turns later body.question (concat ts) in
        let id = session_of minted body in
        let kept = query-append_turns answerer now later minted body s req ts f rest asked came in
        query_request_stored again minted' body'
          (query quote conversations answerer now later minted (ok body) s).0 id
          (last_of max_turns_per_session (old ++ turns)) same empty
          (rw kept
            (conversations.history-append_turns s later again id old turns order fresh known))
        ∙ ap ok (request_spelled id body' (last_of max_turns_per_session (old ++ turns)))
