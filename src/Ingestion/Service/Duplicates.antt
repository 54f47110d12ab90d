-- ===== src/Ingestion/Service/Duplicates.antt =====
-- Uploads of bytes that are already stored (gateway-go/internal/ingestion/service.go).
use financial_ai_platform.Prelude.{◌≡◌, sym, ap, ◌∙◌, arith, true, some, Text, get, ok}
use financial_ai_platform.Ingestion.DocType.{DocumentType, upload_doc_type}
use financial_ai_platform.Ingestion.Records.{Document, Job}
use financial_ai_platform.Ingestion.Documents
use financial_ai_platform.Ingestion.Jobs
use financial_ai_platform.Ingestion.Service.{
  Service, Outside, Draw, Reader, read_upload, reuse, upload_bytes, read_and_upload, upload,
}
use financial_ai_platform.Ingestion.Service.Outcomes.{Records}
use financial_ai_platform.Ingestion.Service.Consistency.{IsConsistent}

module _ (o : Outside) (s : Service) (d : Draw) (uploader filename category : Text)
    (r : Reader) where
  -- The lookups that the reuse of a document makes.
  reuse_found :
      (dt : DocumentType) (bytes job_id : Text) (doc : Document) (job : Job)
      → upload_doc_type category filename ≡ ok dt
      → read_upload r ≡ ok bytes
      → get s.docs.by_hash (o.digest bytes) ≡ some doc.id
      → get s.docs.by_id doc.id ≡ some doc
      → get s.jobs.latest_by_doc_id doc.id ≡ some job_id
      → get s.jobs.by_id job_id ≡ some job
      → upload o s d uploader filename category r
        ≡ (s, ok (record { document = doc; job = job; reused = true }))
  unfolding upload read_and_upload upload_bytes reuse Documents.find_by_content_hash
      Jobs.find_latest_by_document_id
  reuse_found dt bytes job_id doc job typed was_read hashed stored latest known = ground arith

  -- With consistent records, an upload of bytes whose hash a stored document has, under any acceptable
  -- name, changes nothing and answers with that document, a job of it, and `Reused`.
  pub upload_duplicate :
      (dt : DocumentType) (bytes : Text) (doc : Document)
      → IsConsistent s.docs s.jobs
      → upload_doc_type category filename ≡ ok dt
      → read_upload r ≡ ok bytes
      → get s.docs.by_id doc.id ≡ some doc
      → doc.content_hash ≡ o.digest bytes
      → (job : Job) × (job.document_id ≡ doc.id)
        × (upload o s d uploader filename category r
            ≡ (s, ok (record { document = doc; job = job; reused = true })))
  upload_duplicate dt bytes doc v typed was_read stored same =
      let filed = v.docs_filed doc.id doc stored in
      let j = filed.has_job in
      (
        j.job,
        j.own,
        reuse_found dt bytes j.job_id doc j.job typed was_read
            (ap (get s.docs.by_hash) (sym same) ∙ filed.hashed) stored j.latest j.stored,
      )
