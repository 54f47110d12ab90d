-- ===== src/Ingestion/Service/Outcomes.antt =====
-- What an upload changes, on each of its branches (gateway-go/internal/ingestion/service.go).
use financial_ai_platform.Prelude.{
  Bool, ◌≡◌, refl, ◌⊎◌, inl, inr, arith, true, false, none, Option-cases, Result-cases, Text, get,
  ok, err, ◌++◌, ◌∷◌,
}
use financial_ai_platform.Worker.{Pool, Submitted, submit, sent, queue_full, panicked}
use financial_ai_platform.Ingestion.DocType.{
  DocumentType, UploadError, upload_doc_type, doc_type_for_filename, queue_is_full, pool_panic,
}
use financial_ai_platform.Ingestion.Records.{RepositoryError, Document, Job, new_job}
use financial_ai_platform.Ingestion.Documents
use financial_ai_platform.Ingestion.Jobs
use financial_ai_platform.Ingestion.Service.{
  Service, Outside, Draw, Reader, UploadResult, Uploaded, new_document, read_upload, reuse, enqueue,
  create_upload, upload_bytes, read_and_upload, upload,
}

-- The call has written a new document, with a hash that no document had, and its pending job.
pub record Records (o : Outside) (s : Service) (d : Draw) (r : Reader) (u : Uploaded) : Type 0 where
  pub document : Document
  pub bytes : Text
  pub was_read : read_upload r ≡ ok bytes
  pub hashed : document.content_hash ≡ o.digest bytes
  pub named : document.id ≡ d.doc_id
  pub unused : get s.docs.by_hash document.content_hash ≡ none
  pub docs_shape : u.0.docs ≡ Documents.create s.docs document
  pub jobs_shape : u.0.jobs ≡ Jobs.create s.jobs (new_job d.job_id d.doc_id d.now)
  pub submitted :
      ((pool : Pool Job) × (submit s.pool (new_job d.job_id d.doc_id d.now) ≡ sent pool)
        × (u.0.pool ≡ pool)
        × (u.1
            ≡ ok (record {
              document = document;
              job = new_job d.job_id d.doc_id d.now;
              reused = false;
            })))
      ⊎ ((submit s.pool (new_job d.job_id d.doc_id d.now) ≡ queue_full)
          × (u.0.pool ≡ s.pool)
          × (u.1 ≡ err queue_is_full))
      ⊎ ((submit s.pool (new_job d.job_id d.doc_id d.now) ≡ panicked)
          × (u.0.pool ≡ s.pool)
          × (u.1 ≡ err pool_panic))

-- The errors of the checks and of the object store, which come before anything is written.
abbrev pub before_submit : UploadError → Bool
before_submit queue_is_full = false
before_submit pool_panic = false
before_submit _ = true

upload_doc_type-before_submit :
    (category filename : Text) (e : UploadError)
    → upload_doc_type category filename ≡ err e
    → before_submit e ≡ true
unfolding upload_doc_type doc_type_for_filename
upload_doc_type-before_submit category filename e h = ground arith

read_upload-before_submit :
    (r : Reader) (e : UploadError) → read_upload r ≡ err e → before_submit e ≡ true
unfolding read_upload
read_upload-before_submit r e h = ground arith

-- The call has left the service alone: it failed, or answers with a document that was there.
abbrev pub Unchanged : Service → Uploaded → Type 0
Unchanged s u =
    (u.0 ≡ s)
    × (((e : UploadError) × (u.1 ≡ err e) × (before_submit e ≡ true))
        ⊎ ((result : UploadResult) × (u.1 ≡ ok result) × (result.reused ≡ true)))

abbrev pub Effect : Outside → Service → Draw → Reader → Uploaded → Type 0
Effect o s d r u = Unchanged s u ⊎ Records o s d r u

module _ (o : Outside) (s : Service) (d : Draw) (r : Reader) where
  unused_hash :
      (hash : Text) (x : RepositoryError)
      → Documents.find_by_content_hash s.docs hash ≡ err x
      → get s.docs.by_hash hash ≡ none
  unfolding Documents.find_by_content_hash
  unused_hash hash x h = ground arith

  enqueue-Records :
      (doc : Document) (bytes : Text)
      → read_upload r ≡ ok bytes
      → doc.content_hash ≡ o.digest bytes
      → doc.id ≡ d.doc_id
      → get s.docs.by_hash doc.content_hash ≡ none
      → Records o s d r (enqueue o s doc (new_job d.job_id d.doc_id d.now))
  unfolding enqueue
  enqueue-Records doc bytes was_read hashed named unused =
      by_result (submit s.pool (new_job d.job_id d.doc_id d.now)) refl
    where
      by_result :
          (sub : Submitted Job)
          → submit s.pool (new_job d.job_id d.doc_id d.now) ≡ sub
          → Records o s d r (enqueue o s doc (new_job d.job_id d.doc_id d.now))
      by_result (sent pool) e =
          rw (e, enqueue)
            (record {
              document = doc;
              bytes = bytes;
              was_read = was_read;
              hashed = hashed;
              named = named;
              unused = unused;
              docs_shape = refl;
              jobs_shape = refl;
              submitted = inl (pool, e, refl, refl);
            })
      by_result queue_full e =
          rw (e, enqueue)
            (record {
              document = doc;
              bytes = bytes;
              was_read = was_read;
              hashed = hashed;
              named = named;
              unused = unused;
              docs_shape = refl;
              jobs_shape = refl;
              submitted = inr (inl (e, refl, refl));
            })
      by_result panicked e =
          rw (e, enqueue)
            (record {
              document = doc;
              bytes = bytes;
              was_read = was_read;
              hashed = hashed;
              named = named;
              unused = unused;
              docs_shape = refl;
              jobs_shape = refl;
              submitted = inr (inr (e, refl, refl));
            })

  reuse-Effect : (existing : Document) → Effect o s d r (reuse o s existing)
  unfolding reuse
  reuse-Effect existing = elim (Result-cases (Jobs.find_latest_by_document_id s.jobs existing.id)) [
    | inl (job, e) ↦ rw (e, reuse) (inl (refl, inr (_, refl, refl)))
    | inr (x, e) ↦ rw (e, reuse) (inl (refl, inl (_, refl, refl)))
  ]

  create_upload-Effect :
      (uploader filename : Text) (dt : DocumentType) (bytes : Text)
      → read_upload r ≡ ok bytes
      → get s.docs.by_hash (o.digest bytes) ≡ none
      → Effect o s d r (create_upload o s d uploader filename dt bytes)
  unfolding create_upload
  create_upload-Effect uploader filename dt bytes was_read unused =
      elim (Option-cases (o.store_put (d.doc_id ++ (b'/' ∷ filename)) bytes)) [
        | inl e ↦ rw (e, create_upload) (inl (refl, inl (_, refl, refl)))
        | inr (uri, e) ↦
            rw (e, create_upload)
              (inr (
                enqueue-Records (new_document o d uploader filename dt bytes uri) bytes was_read
                  refl refl unused))
      ]

  upload_bytes-Effect :
      (uploader filename : Text) (dt : DocumentType) (bytes : Text)
      → read_upload r ≡ ok bytes
      → Effect o s d r (upload_bytes o s d uploader filename dt bytes)
  unfolding upload_bytes
  upload_bytes-Effect uploader filename dt bytes was_read =
      elim (Result-cases (Documents.find_by_content_hash s.docs (o.digest bytes))) [
        | inl (existing, e) ↦ rw (e, upload_bytes) (reuse-Effect existing)
        | inr (x, e) ↦
            rw (e, upload_bytes)
              (create_upload-Effect uploader filename dt bytes was_read
                (unused_hash (o.digest bytes) x e))
      ]

  pub upload-Effect :
      (uploader filename category : Text)
      → Effect o s d r (upload o s d uploader filename category r)
  unfolding upload read_and_upload
  upload-Effect uploader filename category =
      elim (Result-cases (upload_doc_type category filename)) [
        | inr (x, e) ↦
            rw (e, upload)
              (inl (refl, inl (x, refl, upload_doc_type-before_submit category filename x e)))
        | inl (dt, e) ↦ elim (Result-cases (read_upload r)) [
          | inr (x, f) ↦
              rw (e, upload)
                (rw (f, read_and_upload)
                  (inl (refl, inl (x, refl, read_upload-before_submit r x f))))
          | inl (bytes, f) ↦
              rw (e, upload)
                (rw (f, read_and_upload) (upload_bytes-Effect uploader filename dt bytes f))
        ]
      ]
