-- ===== src/Handlers/Documents.antt =====
-- Upload and status of a document, gateway-go/internal/handlers/documents.go.
pub mod Replies
use financial_ai_platform.Prelude.{
  ℕ, Bool, true, false, ◌&&◌, if◌then◌else◌, ltb, Option, none, some, List, Text, lit, ◌++◌,
  is_empty, length, take, Result, ok, err,
}
use financial_ai_platform.Auth.Token.{Claims}
use financial_ai_platform.Auth.Middleware.{Context, current_claims}
use financial_ai_platform.Ingestion.DocType.{
  UploadError, unsupported_extension, sec_filing_needs_text, read_failed, too_large,
  no_job_for_duplicate, store_failed, queue_is_full, pool_panic, category_general,
}
use financial_ai_platform.Ingestion.Records.{
  Document, Job, JobStatus, unset, pending, extracting, embedding, completed, failed,
  InferredMetadata, RepositoryError,
}
use financial_ai_platform.Ingestion.Service.{
  Service, Outside, Draw, Reader, UploadResult, Uploaded, upload, get_document, get_latest_job,
}
use financial_ai_platform.Handlers.{
  Reply, json, error_json, status_ok, status_accepted, status_bad_request, status_not_found,
  status_unsupported_media_type, status_internal_server_error, status_service_unavailable,
  internal_error, no_claims,
}

-- The request as gin reads it. `form_file` is the field "file" of a body that is read up to a limit:
-- a name and what opening it yields; `none` if the field is missing or the limit is exceeded.
pub record UploadRequest : Type 0 where
  pub form_file : ℕ → Option (Text × Option Reader)
  pub category : Option Text
  pub context : Context

pub record UploadResponse : Type 0 where
  pub document_id : Text
  pub job_id : Text
  pub filename : Text
  pub status : Text
  pub reused : Bool

abbrev pub status_text : JobStatus → Text
status_text unset = lit ""
status_text pending = lit "pending"
status_text extracting = lit "extracting"
status_text embedding = lit "embedding"
status_text completed = lit "completed"
status_text failed = lit "failed"

abbrev pub unsupported : Text
unsupported = lit "ingestion: unsupported file extension"

-- A panic of the pool reaches the middleware `Recovery`, which answers as the default branch does.
unfoldable pub write_upload_error : {V : Type 0} → Text → UploadError → Reply V
write_upload_error filename unsupported_extension =
    error_json status_unsupported_media_type unsupported
write_upload_error filename sec_filing_needs_text =
    error_json status_unsupported_media_type
      (unsupported ++ lit ": sec_filing category requires .html/.htm/.txt, got " ++ filename)
write_upload_error filename queue_is_full =
    error_json status_service_unavailable (lit "ingestion queue is full, try again shortly")
write_upload_error filename _ = error_json status_internal_server_error internal_error

abbrev pub category_or_general : Option Text → Text
category_or_general none = category_general
category_or_general (some category) = category

abbrev pub upload_response : UploadResult → UploadResponse
upload_response result = record {
  document_id = result.document.id;
  job_id = result.job.id;
  filename = result.document.filename;
  status = status_text result.job.status;
  reused = result.reused;
}

unfoldable pub uploaded_reply : Text → Result UploadError UploadResult → Reply UploadResponse
unfolding write_upload_error
uploaded_reply filename (err e) = write_upload_error filename e
uploaded_reply filename (ok result) =
    json (if result.reused then status_ok else status_accepted) (upload_response result)

module _ (o : Outside) (max_upload_bytes : ℕ) where
  with_claims :
      Service
      → Draw
      → UploadRequest
      → Text
      → Reader
      → Option Claims
      → Service × Reply UploadResponse
  unfolding uploaded_reply
  with_claims s d req filename file none = (s, error_json status_internal_server_error no_claims)
  with_claims s d req filename file (some claims) =
      let uploaded = upload o s d claims.user_id filename (category_or_general req.category) file in
      (uploaded.0, uploaded_reply filename uploaded.1)

  opened : Service → Draw → UploadRequest → Text → Option Reader → Service × Reply UploadResponse
  unfolding with_claims
  opened s d req filename none =
      (s, error_json status_bad_request (lit "could not read uploaded file"))
  opened s d req filename (some file) =
      with_claims s d req filename file (current_claims req.context)

  unfoldable pub upload_document : Service → Draw → UploadRequest → Service × Reply UploadResponse
  unfolding opened
  upload_document s d req = elim (req.form_file max_upload_bytes) [
    | none ↦ (s, error_json status_bad_request (lit "missing or invalid 'file' form field"))
    | some (filename, file) ↦ opened s d req filename file
  ]

abbrev pub extracted_text_preview_chars : ℕ
extracted_text_preview_chars = 500

-- Go cuts the string by bytes.
unfoldable pub preview : Text → Text
preview text =
    if ltb extracted_text_preview_chars (length text)
    then take extracted_text_preview_chars text
    else text

pub record JobStatusView : Type 0 where
  pub status : Text
  pub error : Text
  pub extracted_text_preview : Text
  pub extracted_text_length : ℕ
  pub table_count : ℕ
  pub page_count : ℕ
  pub metadata : Option InferredMetadata
  pub chunk_count : ℕ
  pub chunks_skipped_duplicate : ℕ

pub record DocumentResponse : Type 0 where
  pub id : Text
  pub filename : Text
  pub size_bytes : ℕ
  pub uploaded_by : Text
  pub created_at : Text
  pub job : JobStatusView

-- The fields of the view are those of the metadata.
unfoldable pub metadata_view : InferredMetadata → Option InferredMetadata
metadata_view m =
    if is_empty m.ticker
      && is_empty m.company_name
      && is_empty m.filing_type
      && is_empty m.fiscal_period
    then none
    else some m

-- `rfc3339` is time's `Format(time.RFC3339)`.
module _ (rfc3339 : ℕ → Text) where
  unfoldable pub document_response : Document → Job → DocumentResponse
  unfolding preview metadata_view
  document_response doc job = record {
    id = doc.id;
    filename = doc.filename;
    size_bytes = doc.size_bytes;
    uploaded_by = doc.uploaded_by;
    created_at = rfc3339 doc.created_at;
    job = record {
      status = status_text job.status;
      error = job.error;
      extracted_text_preview = preview job.extracted_text;
      extracted_text_length = length job.extracted_text;
      table_count = job.table_count;
      page_count = job.page_count;
      metadata = metadata_view job.metadata;
      chunk_count = job.chunk_count;
      chunks_skipped_duplicate = job.chunks_skipped_duplicate;
    };
  }

  job_reply : Document → Result RepositoryError Job → Reply DocumentResponse
  unfolding document_response
  job_reply doc (err e) = error_json status_not_found (lit "job not found for document")
  job_reply doc (ok job) = json status_ok (document_response doc job)

  unfoldable pub show_document : Service → Text → Reply DocumentResponse
  unfolding job_reply
  show_document s id = elim (get_document s id) [
    | err _ ↦ error_json status_not_found (lit "document not found")
    | ok doc ↦ job_reply doc (get_latest_job s id)
  ]
