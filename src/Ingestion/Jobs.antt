-- ===== src/Ingestion/Jobs.antt =====
-- MemoryJobRepository (gateway-go/internal/ingestion/memory_repository.go).
use financial_ai_platform.Prelude.{List, none, some, Text, get, put, values, Result, ok, err}
use financial_ai_platform.Ingestion.Records.{
  Job, RepositoryError, job_not_found, MemoryJobRepository, or_job,
}

unfoldable pub create : MemoryJobRepository → Job → MemoryJobRepository
create r job = record {
  by_id = put r.by_id job.id job;
  latest_by_doc_id = put r.latest_by_doc_id job.document_id job.id;
}

unfoldable pub update : MemoryJobRepository → Job → Result RepositoryError MemoryJobRepository
update r job = elim (get r.by_id job.id) [
  | none ↦ err job_not_found
  | some _ ↦ ok (record r { by_id = put r.by_id job.id job })
]

unfoldable pub find_by_id : MemoryJobRepository → Text → Result RepositoryError Job
find_by_id r id = elim (get r.by_id id) [ none ↦ err job_not_found | some job ↦ ok job ]

unfoldable pub find_latest_by_document_id : MemoryJobRepository → Text → Result RepositoryError Job
find_latest_by_document_id r document_id = elim (get r.latest_by_doc_id document_id) [
  | none ↦ err job_not_found
  | some job_id ↦ ok (or_job (get r.by_id job_id))
]

unfoldable pub list_all : MemoryJobRepository → List Job
list_all r = values r.by_id
