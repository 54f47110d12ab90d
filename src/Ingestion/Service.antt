-- ===== src/Ingestion/Service.antt =====
-- Uploads (gateway-go/internal/ingestion/service.go), over the in-memory repositories and the worker
-- pool that cmd/gateway/main.go gives to the service.
pub mod Consistency
pub mod Outcomes
pub mod Duplicates
pub mod Found
pub mod Race
pub mod Stored
use financial_ai_platform.Prelude.{
  ℕ, ◌+◌, Bool, true, false, List, [], ◌∷◌, Option, none, some, if◌then◌else◌, ltb, leb, Text, lit,
  length, take, ◌++◌, Result, ok, err,
}
use financial_ai_platform.Worker.{Pool, submit, sent, queue_full, panicked, new_pool, start}
use financial_ai_platform.Ingestion.DocType.{
  DocumentType, UploadError, read_failed, too_large, no_job_for_duplicate, store_failed,
  queue_is_full, pool_panic, upload_doc_type,
}
use financial_ai_platform.Ingestion.Records.{
  Document, Job, new_job, RepositoryError, document_not_found, MemoryDocumentRepository,
  MemoryJobRepository, new_memory_document_repository, new_memory_job_repository,
}
use financial_ai_platform.Ingestion.Documents
use financial_ai_platform.Ingestion.Jobs

-- The state behind the Go struct's fields.
pub record Service : Type 0 where
  pub docs : MemoryDocumentRepository
  pub jobs : MemoryJobRepository
  pub pool : Pool Job

-- NewService, then Start.
abbrev pub started_service : ℕ → ℕ → Service
started_service workers queue_size = record {
  docs = new_memory_document_repository;
  jobs = new_memory_job_repository;
  pool = start workers (new_pool queue_size);
}

-- What the package does not implement: the hex of SHA-256, and the object store, which yields the
-- URI of what it stored under a key, or an error.
pub record Outside : Type 0 where
  pub digest : Text → Text
  pub store_put : Text → Text → Option Text

-- `uuid.NewString()` twice, and `time.Now()`.
pub record Draw : Type 0 where
  pub doc_id : Text
  pub job_id : Text
  pub now : ℕ

-- An io.Reader as the bytes that it delivers, and whether an error or the end follows them.
pub record Reader : Type 0 where
  pub bytes : Text
  pub fails : Bool

-- 64 << 20
unfoldable pub max_upload_buffer_bytes : ℕ
max_upload_buffer_bytes = 67108864

-- io.Copy from io.LimitReader(r, limit): the limit cuts off what follows, an error too.
unfoldable pub copy_limited : Reader → ℕ → Option Text
copy_limited r limit =
    if leb limit (length r.bytes)
    then some (take limit r.bytes)
    else if r.fails
    then none
    else some r.bytes

-- Reading, with the check of the size.
unfoldable pub read_upload : Reader → Result UploadError Text
unfolding copy_limited
read_upload r = elim (copy_limited r (max_upload_buffer_bytes + 1)) [
  | none ↦ err read_failed
  | some bytes ↦ if ltb max_upload_buffer_bytes (length bytes) then err too_large else ok bytes
]

pub record UploadResult : Type 0 where
  pub document : Document
  pub job : Job
  pub reused : Bool

-- The state as a call leaves it, with its result: what was written before an error stays written.
abbrev pub Uploaded : Type 0
Uploaded = Service × Result UploadError UploadResult

module _ (o : Outside) where
  abbrev pub new_document : Draw → Text → Text → DocumentType → Text → Text → Document
  new_document d uploader filename dt bytes uri = record {
    id = d.doc_id;
    filename = filename;
    doc_type = dt;
    storage_uri = uri;
    content_hash = o.digest bytes;
    size_bytes = length bytes;
    uploaded_by = uploader;
    created_at = d.now;
  }

  -- The existing document's latest job.
  reuse : Service → Document → Uploaded
  reuse s existing = elim (Jobs.find_latest_by_document_id s.jobs existing.id) [
    | err _ ↦ (s, err no_job_for_duplicate)
    | ok job ↦ (s, ok (record { document = existing; job = job; reused = true }))
  ]

  -- Both records are written before the job is submitted.
  enqueue : Service → Document → Job → Uploaded
  enqueue s doc job =
      let recorded : Service = record s {
        docs = Documents.create s.docs doc;
        jobs = Jobs.create s.jobs job;
      } in
      elim (submit s.pool job) [
        | sent pool ↦ (
          record recorded { pool = pool },
          ok (record { document = doc; job = job; reused = false }),
        )
        | queue_full ↦ (recorded, err queue_is_full)
        | panicked ↦ (recorded, err pool_panic)
      ]

  pub create_upload : Service → Draw → Text → Text → DocumentType → Text → Uploaded
  unfolding enqueue
  create_upload s d uploader filename dt bytes =
      elim (o.store_put (d.doc_id ++ (b'/' ∷ filename)) bytes) [
        | none ↦ (s, err store_failed)
        | some uri ↦
            enqueue s (new_document d uploader filename dt bytes uri)
              (new_job d.job_id d.doc_id d.now)
      ]

  -- The repository's only error is `ErrDocumentNotFound`.
  pub upload_bytes : Service → Draw → Text → Text → DocumentType → Text → Uploaded
  unfolding reuse create_upload
  upload_bytes s d uploader filename dt bytes =
      elim (Documents.find_by_content_hash s.docs (o.digest bytes)) [
        | ok existing ↦ reuse s existing
        | err _ ↦ create_upload s d uploader filename dt bytes
      ]

  read_and_upload : Service → Draw → Text → Text → DocumentType → Result UploadError Text → Uploaded
  unfolding upload_bytes
  read_and_upload s d uploader filename dt (err e) = (s, err e)
  read_and_upload s d uploader filename dt (ok bytes) = upload_bytes s d uploader filename dt bytes

  unfoldable pub upload : Service → Draw → Text → Text → Text → Reader → Uploaded
  unfolding read_and_upload
  upload s d uploader filename category r = elim (upload_doc_type category filename) [
    | err e ↦ (s, err e)
    | ok dt ↦ read_and_upload s d uploader filename dt (read_upload r)
  ]

unfoldable pub get_document : Service → Text → Result RepositoryError Document
get_document s id = Documents.find_by_id s.docs id

unfoldable pub get_latest_job : Service → Text → Result RepositoryError Job
get_latest_job s document_id = Jobs.find_latest_by_document_id s.jobs document_id

unfoldable pub list_documents : Service → List Document
list_documents s = Documents.list_all s.docs

unfoldable pub list_jobs : Service → List Job
list_jobs s = Jobs.list_all s.jobs
