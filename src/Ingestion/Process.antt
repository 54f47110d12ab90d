-- ===== src/Ingestion/Process.antt =====
-- The processing of a job on a worker: extraction, then embedding
-- (gateway-go/internal/ingestion/service.go, extractor.go, embedder.go).
pub mod Outcome
pub mod Repository
use financial_ai_platform.Prelude.{ℕ, List, Option, none, some, Text, lit, Result, ok, err, ◌++◌}
use financial_ai_platform.Ingestion.DocType.{DocumentType}
use financial_ai_platform.Ingestion.Records.{
  Document, Job, extracting, embedding, completed, failed, InferredMetadata,
  MemoryDocumentRepository, MemoryJobRepository,
}
use financial_ai_platform.Ingestion.Documents
use financial_ai_platform.Ingestion.Jobs

-- What the code reads of an ExtractDocumentResponse; `tables` is the number of its tables.
pub record ExtractDocumentResponse : Type 0 where
  pub raw_text : Text
  pub tables : ℕ
  pub page_count : ℕ
  pub inferred_metadata : Option InferredMetadata

pub record ChunkAndEmbedProgress : Type 0 where
  pub chunks_total : ℕ
  pub chunks_skipped_duplicate : ℕ

-- The interfaces `Extractor` and `Embedder`, with an error's text as its `Error()`.
pub record MlService : Type 0 where
  pub extract_document : Text → Text → DocumentType → Result Text ExtractDocumentResponse
  pub chunk_and_embed : Text → Text → InferredMetadata → Result Text ChunkAndEmbedProgress

-- The values of `time.Now()` at the start of the extraction, at the start of the embedding, and at
-- the end.
pub record Clock : Type 0 where
  pub extraction : ℕ
  pub embedding_start : ℕ
  pub finish : ℕ

-- An update whose error is only logged.
unfoldable pub save : MemoryJobRepository → Job → MemoryJobRepository
save jobs job = elim (Jobs.update jobs job) [ ok updated ↦ updated | err _ ↦ jobs ]

fail_job : Clock → MemoryJobRepository → Job → Text → MemoryJobRepository
fail_job c jobs job cause = save jobs (record job {
  status = failed;
  error = cause;
  updated_at = c.finish;
  completed_at = some c.finish;
})

abbrev pub load_error : Text
load_error = lit "load document: ingestion: document not found"

abbrev or_inferred : InferredMetadata → Option InferredMetadata → InferredMetadata
or_inferred old none = old
or_inferred old (some md) = md

-- The job with what the extraction found.
abbrev pub extracted : Job → ExtractDocumentResponse → Job
extracted job resp = record job {
  extracted_text = resp.raw_text;
  table_count = resp.tables;
  page_count = resp.page_count;
  metadata = or_inferred job.metadata resp.inferred_metadata;
}

abbrev pub marked_extracting : Clock → Job → Job
marked_extracting c job = record job { status = extracting; updated_at = c.extraction }

-- The repository, and the job with its document if the extraction succeeded.
extract_found :
    MlService
    → Clock
    → MemoryJobRepository
    → Job
    → Document
    → MemoryJobRepository × Option (Job × Document)
unfolding fail_job
extract_found m c jobs job doc = elim (m.extract_document doc.id doc.storage_uri doc.doc_type) [
  | err cause ↦ (fail_job c jobs job cause, none)
  | ok resp ↦ (jobs, some (extracted job resp, doc))
]

extract :
    MlService
    → Clock
    → MemoryDocumentRepository
    → MemoryJobRepository
    → Job
    → MemoryJobRepository × Option (Job × Document)
unfolding extract_found
extract m c docs jobs job =
    let marked = marked_extracting c job in
    let jobs' = save jobs marked in
    elim (Documents.find_by_id docs marked.document_id) [
      | err _ ↦ (fail_job c jobs' marked load_error, none)
      | ok doc ↦ extract_found m c jobs' marked doc
    ]

abbrev pub marked_embedding : Clock → Job → Job
marked_embedding c job = record job { status = embedding; updated_at = c.embedding_start }

embed : MlService → Clock → MemoryJobRepository → Job → Document → MemoryJobRepository
unfolding fail_job
embed m c jobs job doc =
    let marked = marked_embedding c job in
    let jobs' = save jobs marked in
    elim (m.chunk_and_embed doc.id marked.extracted_text marked.metadata) [
      | err cause ↦ fail_job c jobs' marked cause
      | ok progress ↦ save jobs' (record marked {
        status = completed;
        chunk_count = progress.chunks_total;
        chunks_skipped_duplicate = progress.chunks_skipped_duplicate;
        updated_at = c.finish;
        completed_at = some c.finish;
      })
    ]

embed_extracted :
    MlService → Clock → MemoryJobRepository × Option (Job × Document) → MemoryJobRepository
unfolding embed
embed_extracted m c (jobs, none) = jobs
embed_extracted m c (jobs, some (job, doc)) = embed m c jobs job doc

unfoldable pub process_job :
    MlService → Clock → MemoryDocumentRepository → MemoryJobRepository → Job → MemoryJobRepository
unfolding extract embed_extracted
process_job m c docs jobs job = embed_extracted m c (extract m c docs jobs job)
