-- ===== src/Handlers/Rag.antt =====
-- Questions, gateway-go/internal/handlers/rag.go: the history of a question, the events that stream its
-- answer, and the turns that are kept.
pub mod Messages
pub mod Stream
pub mod FollowUp
pub mod Summaries
mod Tests
use financial_ai_platform.Prelude.{
  ℕ, Bool, true, false, if◌then◌else◌, List, [], ◌∷◌, ◌++◌, map, Option, none, some, Text, lit,
  text_eq, is_empty, Result, ok, err, ◌>>=◌, ℤ, pos,
}
use financial_ai_platform.Conversation.{Turn, role_user, role_assistant}
use financial_ai_platform.Conversation.Contract.{Store}
use financial_ai_platform.MlClient.{QueryEvent, token, final, failure}
use financial_ai_platform.Handlers.{status_bad_request, status_internal_server_error}
use financial_ai_platform.Handlers.Search.Parameters.{filter_of}
use financial_ai_platform.Handlers.Rag.Messages.{
  ConversationTurnBody, QueryRequestBody, ConversationRole, user, assistant, ConversationTurn,
  QueryRequest, Citation, TokenUsage, QueryFinal, QueryFinalView,
}

-- A getter of a missing message yields zeros.
abbrev pub usage_or_zero : Option TokenUsage → TokenUsage
usage_or_zero none = record {
  prompt_tokens = pos 0;
  completion_tokens = pos 0;
  total_tokens = pos 0;
}
usage_or_zero (some usage) = usage

abbrev pub final_view : {F : Type 0} → Text → QueryFinal F → QueryFinalView F
final_view session_id f = record {
  session_id = session_id;
  citations = f.citations;
  usage = usage_or_zero f.usage;
  latency_ms = f.latency_ms;
}

unfoldable pub parse_conversation_role : Text → Option ConversationRole
parse_conversation_role raw =
    if text_eq raw (lit "user")
    then some user
    else if text_eq raw (lit "assistant")
    then some assistant
    else none

unfoldable pub conversation_role_to_proto : Text → ConversationRole
conversation_role_to_proto role = if text_eq role role_assistant then assistant else user

abbrev pub proto_turn : Turn → ConversationTurn
proto_turn turn = record { role = conversation_role_to_proto turn.role; content = turn.content }

abbrev turn_of : Text → Option ConversationRole → Text → Result Text ConversationTurn
turn_of message none content = err message
turn_of message (some role) content = ok (record { role = role; content = content })

-- A server-sent event.
pub data ServerEvent (F : Type 0) : Type 0 where
  token_event : Text → ServerEvent F
  final_event : QueryFinalView F → ServerEvent F
  error_event : Text → ServerEvent F

-- The loop of `Stream` over the events that the channel yields before it is closed or the client
-- leaves, with the answer so far; the answer that is kept is that before the last message.
unfoldable pub stream_events :
    {F : Type 0}
    → Text
    → Text
    → List (QueryEvent (QueryFinal F))
    → List (ServerEvent F) × Option Text
stream_events session_id answer [] = ([], none)
stream_events session_id answer (failure cause ∷ events) = (error_event cause ∷ [], none)
stream_events session_id answer (final f ∷ events) =
    (final_event (final_view session_id f) ∷ [], some answer)
stream_events session_id answer (token t ∷ events) =
    let rest = stream_events session_id (answer ++ t) events in (token_event t ∷ rest.0, rest.1)

-- A stream, or an error before it.
pub data QueryReply (F : Type 0) : Type 0 where
  stream : List (ServerEvent F) → QueryReply F
  error_json : ℕ → Text → QueryReply F

abbrev pub answer_turns : ℕ → Text → Text → List Turn
answer_turns now question answer =
    (record { role = role_user; content = question; created_at = now })
    ∷ (record { role = role_assistant; content = answer; created_at = now })
    ∷ []

-- An omitted id is replaced by a new one.
abbrev pub session_of : Text → QueryRequestBody → Text
session_of minted body = if is_empty body.session_id then minted else body.session_id

abbrev pub request_of : Text → QueryRequestBody → List ConversationTurn → QueryRequest
request_of session_id body history = record {
  session_id = session_id;
  question = body.question;
  history = history;
  filter = filter_of body.tickers body.filing_types body.fiscal_period;
  top_k = body.top_k;
}

abbrev pub stored_history : Result Text (List Turn) → Result Text (List ConversationTurn)
stored_history (err cause) = err (lit "load conversation history: " ++ cause)
stored_history (ok turns) = ok (map proto_turn turns)

-- `quote` is fmt's verb %q.
module _ (quote : Text → Text) (conversations : Store) where
  -- The loop over the history of the body.
  unfoldable pub body_history : List ConversationTurnBody → Result Text (List ConversationTurn)
  unfolding parse_conversation_role
  body_history [] = ok []
  body_history (turn ∷ turns) =
      let rest = body_history turns in
      turn_of
        (lit "invalid history role " ++ (quote turn.role ++ lit ": must be user or assistant"))
        (parse_conversation_role turn.role) turn.content
      >>= λ t. rest >>= λ ts. ok (t ∷ ts)

  unfoldable pub resolve_history :
      ℕ
      → conversations.State
      → Text
      → List ConversationTurnBody
      → Result Text (List ConversationTurn)
  unfolding body_history
  resolve_history now s session_id [] = stored_history (conversations.history now s session_id)
  resolve_history now s session_id (turn ∷ turns) = body_history (turn ∷ turns)

  persist_turns : ℕ → conversations.State → Text → Text → Option Text → conversations.State
  persist_turns now s session_id question none = s
  persist_turns now s session_id question (some answer) =
      conversations.append_turns now s session_id (answer_turns now question answer)

  -- `decoded` is what gin's binding yields, which checks that the question is not empty.
  unfoldable pub query_request :
      ℕ → Text → Result Text QueryRequestBody → conversations.State → Result Text QueryRequest
  unfolding resolve_history
  query_request now minted decoded s = do
    body ← decoded
    history ← resolve_history now s (session_of minted body) body.history
    ok (request_of (session_of minted body) body history)

  module _ {F : Type 0} where
    answered :
        ℕ
        → conversations.State
        → QueryRequest
        → Option (List (QueryEvent (QueryFinal F)))
        → conversations.State × QueryReply F
    unfolding stream_events persist_turns
    answered later s req none =
        (s, error_json status_internal_server_error (lit "rag query failed"))
    answered later s req (some events) =
        let streamed = stream_events req.session_id [] events in
        (persist_turns later s req.session_id req.question streamed.1, stream streamed.0)

    -- The answerer yields the events that reach the handler, or an error.
    unfoldable pub query :
        (QueryRequest → Option (List (QueryEvent (QueryFinal F))))
        → ℕ
        → ℕ
        → Text
        → Result Text QueryRequestBody
        → conversations.State
        → conversations.State × QueryReply F
    unfolding query_request answered
    query answerer now later minted decoded s = elim (query_request now minted decoded s) [
      | err message ↦ (s, error_json status_bad_request message)
      | ok req ↦ answered later s req (answerer req)
    ]
