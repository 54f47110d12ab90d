-- ===== src/Ingestion/Records.antt =====
-- Documents, jobs, and their in-memory repositories (gateway-go/internal/ingestion/document.go,
-- job.go, repository.go, memory_repository.go).
use financial_ai_platform.Prelude.{ℕ, [], Option, none, some, Text, lit, Dict}
use financial_ai_platform.Ingestion.DocType.{DocumentType, unspecified}

pub record Document : Type 0 where
  pub id : Text
  pub filename : Text
  pub doc_type : DocumentType
  pub storage_uri : Text
  pub content_hash : Text
  pub size_bytes : ℕ
  pub uploaded_by : Text
  pub created_at : ℕ

-- `unset` is the zero value, the empty text.
pub data JobStatus : Type 0 where
  unset pending extracting embedding completed failed : JobStatus

pub record InferredMetadata : Type 0 where
  pub ticker : Text
  pub company_name : Text
  pub filing_type : Text
  pub fiscal_period : Text

-- Counts are not negative.
pub record Job : Type 0 where
  pub id : Text
  pub document_id : Text
  pub status : JobStatus
  pub error : Text
  pub extracted_text : Text
  pub table_count : ℕ
  pub page_count : ℕ
  pub metadata : InferredMetadata
  pub chunk_count : ℕ
  pub chunks_skipped_duplicate : ℕ
  pub created_at : ℕ
  pub updated_at : ℕ
  pub completed_at : Option ℕ

abbrev pub no_metadata : InferredMetadata
no_metadata = record {
  ticker = lit "";
  company_name = lit "";
  filing_type = lit "";
  fiscal_period = lit "";
}

-- The zero values, which a Go map yields for a missing key.
abbrev pub no_document : Document
no_document = record {
  id = lit "";
  filename = lit "";
  doc_type = unspecified;
  storage_uri = lit "";
  content_hash = lit "";
  size_bytes = 0;
  uploaded_by = lit "";
  created_at = 0;
}

-- The job that `Upload` creates.
abbrev pub new_job : Text → Text → ℕ → Job
new_job id document_id now = record {
  id = id;
  document_id = document_id;
  status = pending;
  error = lit "";
  extracted_text = lit "";
  table_count = 0;
  page_count = 0;
  metadata = no_metadata;
  chunk_count = 0;
  chunks_skipped_duplicate = 0;
  created_at = now;
  updated_at = now;
  completed_at = none;
}

abbrev pub no_job : Job
no_job = record (new_job (lit "") (lit "") 0) { status = unset }

pub data RepositoryError : Type 0 where
  document_not_found job_not_found : RepositoryError

pub record MemoryDocumentRepository : Type 0 where
  pub by_id : Dict Document
  pub by_hash : Dict Text

pub record MemoryJobRepository : Type 0 where
  pub by_id : Dict Job
  pub latest_by_doc_id : Dict Text

abbrev pub new_memory_document_repository : MemoryDocumentRepository
new_memory_document_repository = record { by_id = []; by_hash = [] }

abbrev pub new_memory_job_repository : MemoryJobRepository
new_memory_job_repository = record { by_id = []; latest_by_doc_id = [] }

abbrev pub or_document : Option Document → Document
or_document none = no_document
or_document (some d) = d

abbrev pub or_job : Option Job → Job
or_job none = no_job
or_job (some j) = j
