-- ===== src/Handlers/Rag/Messages.antt =====
-- The messages of a question and of its answer, gateway-go/internal/handlers/rag.go and the protocol.
use financial_ai_platform.Prelude.{List, Option, Text, ℤ}
use financial_ai_platform.Handlers.Search.Parameters.{MetadataFilter}

pub record ConversationTurnBody : Type 0 where
  pub role : Text
  pub content : Text

-- The decoded body; a missing field has its zero value.
pub record QueryRequestBody : Type 0 where
  pub session_id : Text
  pub question : Text
  pub history : List ConversationTurnBody
  pub top_k : ℤ
  pub tickers : List Text
  pub filing_types : List Text
  pub fiscal_period : Text

-- The enumeration of the protocol.
pub data ConversationRole : Type 0 where
  user assistant : ConversationRole

pub record ConversationTurn : Type 0 where
  pub role : ConversationRole
  pub content : Text

pub record QueryRequest : Type 0 where
  pub session_id : Text
  pub question : Text
  pub history : List ConversationTurn
  pub filter : Option MetadataFilter
  pub top_k : ℤ

pub record Citation : Type 0 where
  pub chunk_id : Text
  pub document_id : Text
  pub quote : Text
  pub page_number : ℤ
  pub source_url : Text

pub record TokenUsage : Type 0 where
  pub prompt_tokens : ℤ
  pub completion_tokens : ℤ
  pub total_tokens : ℤ

-- The last message of an answer; F is the type of floating-point numbers.
pub record QueryFinal (F : Type 0) : Type 0 where
  pub citations : List Citation
  pub usage : Option TokenUsage
  pub latency_ms : F

-- The views of citations and of the usage have the fields of the messages.
pub record QueryFinalView (F : Type 0) : Type 0 where
  pub session_id : Text
  pub citations : List Citation
  pub usage : TokenUsage
  pub latency_ms : F
