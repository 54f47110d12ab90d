-- ===== src/Handlers/Admins.antt =====
-- The admin routes that read the services, gateway-go/internal/handlers/admin.go.
pub mod Statistics
use financial_ai_platform.Prelude.{
  ℕ, zero, ◌+◌, List, [], ◌∷◌, map, Option, none, some, Text, lit, length, Dict, get, put, Result,
  ok, err,
}
use financial_ai_platform.Auth.User.{User}
use financial_ai_platform.Auth.Service as Auth
use financial_ai_platform.Ingestion.Records.{Document, Job, RepositoryError, no_job}
use financial_ai_platform.Ingestion.Service.{Service, list_documents, list_jobs, get_latest_job}
use financial_ai_platform.MlClient.Unary.{Failure}
use financial_ai_platform.Handlers.{
  Reply, json, error_json, status_ok, status_bad_request, status_internal_server_error,
}
use financial_ai_platform.Handlers.Documents.{DocumentResponse, document_response, status_text}

pub record UserView : Type 0 where
  pub id : Text
  pub email : Text
  pub role : Text
  pub created_at : Text

pub record JobView : Type 0 where
  pub id : Text
  pub document_id : Text
  pub status : Text
  pub error : Text
  pub chunk_count : ℕ
  pub created_at : Text
  pub updated_at : Text

pub record StatsView : Type 0 where
  pub total_users : ℕ
  pub total_documents : ℕ
  pub total_jobs : ℕ
  pub jobs_by_status : Dict ℕ

-- `job, _ := GetLatestJob(...)`: the zero value on an error.
abbrev pub job_or_zero : Result RepositoryError Job → Job
job_or_zero (ok job) = job
job_or_zero (err e) = no_job

-- The listings of the in-memory repositories do not fail.
module _ (rfc3339 : ℕ → Text) where
  abbrev pub user_view : User → UserView
  user_view u = record {
    id = u.id;
    email = u.email;
    role = u.role;
    created_at = rfc3339 u.created_at;
  }

  unfoldable pub show_users : (a : Auth.Service) → a.Store → Reply (List UserView)
  unfolding Auth.list_users
  show_users a store = json status_ok (map user_view (Auth.list_users a store))

  unfoldable pub document_view : Service → Document → DocumentResponse
  unfolding get_latest_job document_response
  document_view s doc = document_response rfc3339 doc (job_or_zero (get_latest_job s doc.id))

  unfoldable pub show_documents : Service → Reply (List DocumentResponse)
  unfolding list_documents document_view
  show_documents s = json status_ok (map (document_view s) (list_documents s))

  abbrev pub job_view : Job → JobView
  job_view job = record {
    id = job.id;
    document_id = job.document_id;
    status = status_text job.status;
    error = job.error;
    chunk_count = job.chunk_count;
    created_at = rfc3339 job.created_at;
    updated_at = rfc3339 job.updated_at;
  }

  unfoldable pub show_jobs : Service → Reply (List JobView)
  unfolding list_jobs
  show_jobs s = json status_ok (map job_view (list_jobs s))

abbrev pub or_zero : Option ℕ → ℕ
or_zero none = 0
or_zero (some n) = n

-- The loop `byStatus[string(job.Status)]++`.
unfoldable pub by_status : List Job → Dict ℕ → Dict ℕ
by_status [] counts = counts
by_status (job ∷ jobs) counts =
    by_status jobs
      (put counts (status_text job.status) (or_zero (get counts (status_text job.status)) + 1))

unfoldable pub stats : (a : Auth.Service) → a.Store → Service → Reply StatsView
unfolding Auth.list_users list_documents list_jobs by_status
stats a store s = json status_ok (record {
  total_users = length (Auth.list_users a store);
  total_documents = length (list_documents s);
  total_jobs = length (list_jobs s);
  jobs_by_status = by_status (list_jobs s) [];
})

-- F is the type of floating-point numbers.
pub record EvaluateAnswerBody : Type 0 where
  pub question : Text
  pub answer : Text
  pub context : List Text
  pub ground_truth_answer : Text

pub record EvaluateAnswerResponse (F : Type 0) : Type 0 where
  pub faithfulness : F
  pub context_precision : F
  pub context_recall : F
  pub hallucination_score : F
  pub answer_relevancy : F

abbrev pub evaluate_failed : Text
evaluate_failed = lit "evaluate failed"

abbrev evaluated :
    {F : Type 0} → Result Failure (EvaluateAnswerResponse F) → Reply (EvaluateAnswerResponse F)
evaluated (ok resp) = json status_ok resp
evaluated (err f) = error_json status_internal_server_error evaluate_failed

-- `decoded` is what gin's binding yields, which checks that question and answer are not empty. The view
-- has the fields of the response.
unfoldable pub evaluate_answer :
    {F : Type 0}
    → (Text → Text → List Text → Text → Result Failure (EvaluateAnswerResponse F))
    → Result Text EvaluateAnswerBody
    → Reply (EvaluateAnswerResponse F)
evaluate_answer evaluator (err message) = error_json status_bad_request message
evaluate_answer evaluator (ok body) =
    evaluated (evaluator body.question body.answer body.context body.ground_truth_answer)
