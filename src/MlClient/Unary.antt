-- ===== src/MlClient/Unary.antt =====
-- The unary calls of the client of the ML service, gateway-go/internal/mlclient/client.go. A call of
-- gRPC is a function of its request; an error has its status code, which survives fmt's verb %w.
use financial_ai_platform.Prelude.{ℤ, List, Option, none, some, Text, lit, ◌++◌, Result, ok, err}
use financial_ai_platform.Ingestion.DocType.{DocumentType}
use financial_ai_platform.Handlers.Search.Parameters.{SearchMode, MetadataFilter}
use financial_ai_platform.MlClient.{wrapped}
use financial_ai_platform.MlClient.Interceptor.{Code}

pub record Failure : Type 0 where
  pub code : Code
  pub message : Text

abbrev pub not_found : Code
not_found = 5

abbrev pub fail : {A : Type 0} → Text → Result Failure A → Result Failure A
fail prefix (ok a) = ok a
fail prefix (err f) = err (record { code = f.code; message = wrapped prefix f.message })

-- The statuses of the health service of gRPC.
pub data ServingStatus : Type 0 where
  unknown serving not_serving service_unknown : ServingStatus

abbrev pub status_name : ServingStatus → Text
status_name unknown = lit "UNKNOWN"
status_name serving = lit "SERVING"
status_name not_serving = lit "NOT_SERVING"
status_name service_unknown = lit "SERVICE_UNKNOWN"

abbrev pub reports : ServingStatus → Option Text
reports serving = none
reports s = some (lit "mlclient: ml-service reports status " ++ status_name s)

-- The message of the error, if there is one.
unfoldable pub health_check : Result Failure ServingStatus → Option Text
health_check (err f) = some (wrapped (lit "mlclient: health check: ") f.message)
health_check (ok s) = reports s

pub data SummaryType : Type 0 where
  executive risk revenue sentiment : SummaryType

-- The requests of the calls, with the fields that the client sets.
pub record SummarizeRequest : Type 0 where
  pub document_id : Text
  pub type : SummaryType

pub record EvaluateAnswerRequest : Type 0 where
  pub question : Text
  pub answer : Text
  pub retrieved_context : List Text
  pub ground_truth_answer : Text

pub record ExtractDocumentRequest : Type 0 where
  pub document_id : Text
  pub s3_uri : Text
  pub doc_type : DocumentType

pub record SearchRequest : Type 0 where
  pub query : Text
  pub top_k : ℤ
  pub mode : SearchMode
  pub filter : Option MetadataFilter

module _ {R : Type 0} where
  unfoldable pub extract_document :
      (ExtractDocumentRequest → Result Failure R) → Text → Text → DocumentType → Result Failure R
  extract_document rpc document_id uri doc_type =
      fail (lit "mlclient: ExtractDocument: ")
        (rpc (record { document_id = document_id; s3_uri = uri; doc_type = doc_type }))

  unfoldable pub search :
      (SearchRequest → Result Failure R)
      → Text
      → ℤ
      → SearchMode
      → Option MetadataFilter
      → Result Failure R
  search rpc query top_k mode filter =
      fail (lit "mlclient: Search: ")
        (rpc (record { query = query; top_k = top_k; mode = mode; filter = filter }))

  unfoldable pub summarize :
      (SummarizeRequest → Result Failure R) → Text → SummaryType → Result Failure R
  summarize rpc document_id type =
      fail (lit "mlclient: Summarize: ") (rpc (record { document_id = document_id; type = type }))

  -- A chunk of the context has only its text.
  unfoldable pub evaluate_answer :
      (EvaluateAnswerRequest → Result Failure R) → Text → Text → List Text → Text → Result Failure R
  evaluate_answer rpc question answer context_texts ground_truth_answer =
      fail (lit "mlclient: EvaluateAnswer: ") (
        rpc (record {
          question = question;
          answer = answer;
          retrieved_context = context_texts;
          ground_truth_answer = ground_truth_answer;
        }))
