-- ===== src/Handlers/Admins/Statistics.antt =====
-- What the admin routes count and list, gateway-go/internal/handlers/admin.go.
use financial_ai_platform.Prelude.{
  ℕ, ◌+◌, ◌≡◌, refl, ◌∙◌, arith, Bool, some, List, [], ◌∷◌, length, count, Text, text_eq,
  text_eq_iff, Dict, get, put, get-put,
}
use financial_ai_platform.Auth.Service as Auth
use financial_ai_platform.Ingestion.Records.{Document, Job}
use financial_ai_platform.Ingestion.Service.{
  Service, list_documents, list_jobs, get_document, get_latest_job,
}
use financial_ai_platform.Ingestion.Documents
use financial_ai_platform.Ingestion.Jobs
use financial_ai_platform.Ingestion.Service.Consistency.{IsConsistent}
use financial_ai_platform.Handlers.{json, status_ok}
use financial_ai_platform.Handlers.Documents.{show_document, status_text}
use financial_ai_platform.Handlers.Admins.{StatsView, or_zero, by_status, stats, document_view}

abbrev pub has_status : Text → Job → Bool
has_status status job = text_eq (status_text job.status) status

get-by_status :
    (jobs : List Job) (counts : Dict ℕ) (status : Text)
    → or_zero (get (by_status jobs counts) status)
      ≡ or_zero (get counts status) + count (has_status status) jobs
unfolding by_status
get-by_status [] counts status = omega arith
get-by_status (job ∷ jobs) counts status =
    let t = status_text job.status in
    let rest = get-by_status jobs (put counts t (or_zero (get counts t) + 1)) status in
    let read = get-put counts t status (or_zero (get counts t) + 1) in
    ground (arith, rest, read, text_eq_iff t status)

abbrev pub sum : Dict ℕ → ℕ
sum [] = 0
sum ((k, n) ∷ m) = n + sum m

sum-put : (m : Dict ℕ) (k : Text) → sum (put m k (or_zero (get m k) + 1)) ≡ sum m + 1
unfolding put get
sum-put [] k = omega arith
sum-put ((j, n) ∷ m) k = ground (arith, sum-put m k)

sum-by_status :
    (jobs : List Job) (counts : Dict ℕ) → sum (by_status jobs counts) ≡ sum counts + length jobs
unfolding by_status
sum-by_status [] counts = omega arith
sum-by_status (job ∷ jobs) counts =
    let t = status_text job.status in
    let rest = sum-by_status jobs (put counts t (or_zero (get counts t) + 1)) in
    omega (arith, rest, sum-put counts t)

-- The statistics of the admin route count all users, documents and jobs; under each status they
-- have the number of the jobs with it, and these numbers add up to that of all jobs.
pub stats_cases :
    (a : Auth.Service) (store : a.Store) (s : Service)
    → (view : StatsView) × (stats a store s ≡ json status_ok view)
      × (view.total_users ≡ length (Auth.list_users a store))
      × (view.total_documents ≡ length (list_documents s))
      × ((status : Text)
          → or_zero (get view.jobs_by_status status) ≡ count (has_status status) (list_jobs s))
      × (sum view.jobs_by_status ≡ view.total_jobs)
unfolding stats get
stats_cases a store s = (
  record {
    total_users = length (Auth.list_users a store);
    total_documents = length (list_documents s);
    total_jobs = length (list_jobs s);
    jobs_by_status = by_status (list_jobs s) [];
  },
  refl,
  refl,
  refl,
  λ status. get-by_status (list_jobs s) [] status ∙ omega arith,
  sum-by_status (list_jobs s) [] ∙ omega arith,
)

-- With consistent records, the route of a stored document answers 200 with the entry that the list of
-- the admin route has for it.
pub show_document-eq-document_view :
    (rfc3339 : ℕ → Text) (s : Service) (id : Text) (doc : Document)
    → IsConsistent s.docs s.jobs
    → get s.docs.by_id id ≡ some doc
    → show_document rfc3339 s id ≡ json status_ok (document_view rfc3339 s doc)
unfolding show_document document_view get_document get_latest_job Documents.find_by_id
    Jobs.find_latest_by_document_id
show_document-eq-document_view rfc3339 s id doc v stored =
    let filed = v.docs_filed id doc stored in
    let job = filed.has_job in ground (arith, filed.named, job.latest, job.stored)
