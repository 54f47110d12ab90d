-- ===== src/Ingestion/Flights/Unfiled.antt =====
-- A duplicate of a document whose job is not yet recorded (gateway-go/internal/ingestion/service.go).
use financial_ai_platform.Prelude.{◌≡◌, arith, true, none, Text, get, get-put_self, ok, err}
use financial_ai_platform.Ingestion.DocType.{DocumentType, no_job_for_duplicate}
use financial_ai_platform.Ingestion.Records.{Document, new_job}
use financial_ai_platform.Ingestion.Documents
use financial_ai_platform.Ingestion.Jobs
use financial_ai_platform.Ingestion.Service.{Service, Outside, Draw}
use financial_ai_platform.Ingestion.Flights.{looking, reusing, recording, filing, ended, advance}

-- Between the two Creates of an upload, an upload of the same bytes finds the document and no job of it, and
-- ends with an error; after the second Create it is answered with the document and the job.
pub advance_unfiled :
    (o : Outside) (d e : Draw) (s : Service) (doc : Document) (uploader filename : Text)
    (dt : DocumentType) (bytes : Text)
    → doc.content_hash ≡ o.digest bytes
    → get s.jobs.latest_by_doc_id doc.id ≡ none
    → let recorded = (advance o d s (recording doc)).0 in
      let filed = (advance o d recorded (filing doc)).0 in
      let other = looking uploader filename dt bytes in
      (advance o e recorded other ≡ (recorded, reusing doc))
      × (advance o e recorded (reusing doc) ≡ (recorded, ended (err no_job_for_duplicate)))
      × (advance o e filed (reusing doc) ≡ (
        filed,
        ended (
            ok (record {
              document = doc;
              job = new_job d.job_id doc.id doc.created_at;
              reused = true;
            })),
      ))
unfolding advance Documents.create Documents.find_by_content_hash Jobs.create
    Jobs.find_latest_by_document_id
advance_unfiled o d e s doc uploader filename dt bytes same none_filed =
    let job = new_job d.job_id doc.id doc.created_at in
    let hash = get-put_self s.docs.by_hash doc.content_hash doc.id in
    let stored = get-put_self s.docs.by_id doc.id doc in
    let latest = get-put_self s.jobs.latest_by_doc_id doc.id d.job_id in
    let filed = get-put_self s.jobs.by_id d.job_id job in
    (ground (arith, hash, stored), ground arith, ground (arith, latest, filed))
