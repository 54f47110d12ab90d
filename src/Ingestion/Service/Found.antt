-- ===== src/Ingestion/Service/Found.antt =====
-- What an upload returns is what the service then finds (gateway-go/internal/ingestion/service.go).
use financial_ai_platform.Prelude.{
  ◌≡◌, refl, inl, inr, arith, some, Option-cases, Result-cases, Text, get, get-put_self, ok, ◌++◌,
  ◌∷◌,
}
use financial_ai_platform.Ingestion.DocType.{DocumentType, upload_doc_type}
use financial_ai_platform.Ingestion.Records.{Document, new_job, or_document}
use financial_ai_platform.Ingestion.Documents
use financial_ai_platform.Ingestion.Jobs
use financial_ai_platform.Ingestion.Service.{
  Service, Outside, Draw, Reader, UploadResult, new_document, read_upload, reuse, enqueue,
  create_upload, upload_bytes, read_and_upload, upload, get_document, get_latest_job,
}
use financial_ai_platform.Ingestion.Service.Consistency.{IsConsistent}

-- The state holds the document of a result, and as its latest job that of the result.
abbrev pub Finds : Service → UploadResult → Type 0
Finds s result =
    (get_document s result.document.id ≡ ok result.document)
    × (get_latest_job s result.document.id ≡ ok result.job)

module _ (o : Outside) (s : Service) (v : IsConsistent s.docs s.jobs) where
  reuse-Finds :
      (hash id : Text) (result : UploadResult) (s' : Service)
      → get s.docs.by_hash hash ≡ some id
      → reuse o s (or_document (get s.docs.by_id id)) ≡ (s', ok result)
      → Finds s' result
  unfolding reuse get_document get_latest_job Documents.find_by_id Jobs.find_latest_by_document_id
  reuse-Finds hash id result s' known h =
      let (doc, stored, hashed) = v.hash_is_stored hash id known in
      let filed = v.docs_filed id doc stored in
      let job = filed.has_job in ground (arith, stored, filed.named, job.latest, job.stored)

  enqueue-Finds :
      (d : Draw) (doc : Document) (result : UploadResult) (s' : Service)
      → doc.id ≡ d.doc_id
      → enqueue o s doc (new_job d.job_id d.doc_id d.now) ≡ (s', ok result)
      → Finds s' result
  unfolding enqueue get_document get_latest_job Documents.find_by_id Jobs.find_latest_by_document_id
      Documents.create Jobs.create
  enqueue-Finds d doc result s' named h =
      let job = new_job d.job_id d.doc_id d.now in
      ground (
        arith,
        get-put_self s.docs.by_id doc.id doc,
        get-put_self s.jobs.latest_by_doc_id d.doc_id d.job_id,
        get-put_self s.jobs.by_id d.job_id job,
        named,
      )

  create_upload-Finds :
      (d : Draw) (uploader filename : Text) (dt : DocumentType) (bytes : Text)
      (result : UploadResult) (s' : Service)
      → create_upload o s d uploader filename dt bytes ≡ (s', ok result)
      → Finds s' result
  unfolding create_upload
  create_upload-Finds d uploader filename dt bytes result s' h =
      elim (Option-cases (o.store_put (d.doc_id ++ (b'/' ∷ filename)) bytes)) [
        | inl e ↦ absurd (ground arith)
        | inr (uri, e) ↦
            enqueue-Finds d (new_document o d uploader filename dt bytes uri) result s' refl
              (ground arith)
      ]

  upload_bytes-Finds :
      (d : Draw) (uploader filename : Text) (dt : DocumentType) (bytes : Text)
      (result : UploadResult) (s' : Service)
      → upload_bytes o s d uploader filename dt bytes ≡ (s', ok result)
      → Finds s' result
  unfolding upload_bytes Documents.find_by_content_hash
  upload_bytes-Finds d uploader filename dt bytes result s' h =
      elim (Option-cases (get s.docs.by_hash (o.digest bytes))) [
        | inl e ↦ create_upload-Finds d uploader filename dt bytes result s' (ground arith)
        | inr (id, e) ↦ reuse-Finds (o.digest bytes) id result s' e (ground arith)
      ]

  -- With consistent records, after a successful upload the service finds the document that it
  -- returned under its id, and as its latest job the job that it returned.
  pub upload-Finds :
      (d : Draw) (uploader filename category : Text) (r : Reader) (result : UploadResult)
      (s' : Service)
      → upload o s d uploader filename category r ≡ (s', ok result)
      → Finds s' result
  unfolding upload read_and_upload
  upload-Finds d uploader filename category r result s' h =
      elim (Result-cases (upload_doc_type category filename)) [
        | inr (x, e) ↦ absurd (ground arith)
        | inl (dt, e) ↦ elim (Result-cases (read_upload r)) [
          | inr (x, f) ↦ absurd (ground arith)
          | inl (bytes, f) ↦
              upload_bytes-Finds d uploader filename dt bytes result s' (ground arith)
        ]
      ]
