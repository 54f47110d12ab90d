-- ===== src/Ingestion/Flights.antt =====
-- Uploads in flight at the same time (gateway-go/internal/ingestion/service.go): each call of a repository, of
-- the object store and of the pool is a step of its own, as the locks make it, and the steps of the uploads
-- and of the workers are interleaved.
pub mod Grows
pub mod Kept
pub mod Advances
pub mod Interleaved
pub mod Unfiled
mod Tests
use financial_ai_platform.Prelude.{
  ℕ, Bool, true, false, ◌≡◌, List, [], ◌∷◌, ◌++◌, Option, none, some, Text, get, Result, ok, err,
}
use financial_ai_platform.Worker.{Pool, submit, sent, queue_full, panicked}
use financial_ai_platform.Worker.Steps as Worker
use financial_ai_platform.Ingestion.DocType.{
  DocumentType, UploadError, no_job_for_duplicate, store_failed, queue_is_full, pool_panic,
  upload_doc_type,
}
use financial_ai_platform.Ingestion.Records.{Document, Job, new_job}
use financial_ai_platform.Ingestion.Documents
use financial_ai_platform.Ingestion.Jobs
use financial_ai_platform.Ingestion.Service.{
  Service, Outside, Draw, Reader, UploadResult, new_document, read_upload,
}
use financial_ai_platform.Ingestion.Process.{save}

-- How far an upload has come: before the lookup of the hash, before that of the job of a duplicate, before
-- Put, before each Create, before Submit, and at its end.
pub data Flight : Type 0 where
  looking storing : (uploader filename : Text) → (dt : DocumentType) → (bytes : Text) → Flight
  reusing recording filing : Document → Flight
  submitting : Document → Job → Flight
  ended : Result UploadError UploadResult → Flight

-- The checks of the name and of the size.
unfoldable pub begin : Text → Text → Text → Reader → Flight
begin uploader filename category r = elim (upload_doc_type category filename) [
  | err e ↦ ended (err e)
  | ok dt ↦ elim (read_upload r) [
    | err e ↦ ended (err e)
    | ok bytes ↦ looking uploader filename dt bytes
  ]
]

module _ (o : Outside) (d : Draw) where
  -- The next call of an upload, with what is drawn for it.
  unfoldable pub advance : Service → Flight → Service × Flight
  advance s (looking uploader filename dt bytes) =
      elim (Documents.find_by_content_hash s.docs (o.digest bytes)) [
        | ok existing ↦ (s, reusing existing)
        | err _ ↦ (s, storing uploader filename dt bytes)
      ]
  advance s (reusing existing) = elim (Jobs.find_latest_by_document_id s.jobs existing.id) [
    | err _ ↦ (s, ended (err no_job_for_duplicate))
    | ok job ↦ (s, ended (ok (record { document = existing; job = job; reused = true })))
  ]
  advance s (storing uploader filename dt bytes) =
      elim (o.store_put (d.doc_id ++ (b'/' ∷ filename)) bytes) [
        | none ↦ (s, ended (err store_failed))
        | some uri ↦ (s, recording (new_document o d uploader filename dt bytes uri))
      ]
  advance s (recording doc) = (record s { docs = Documents.create s.docs doc }, filing doc)
  advance s (filing doc) =
      let job = new_job d.job_id doc.id doc.created_at in
      (record s { jobs = Jobs.create s.jobs job }, submitting doc job)
  advance s (submitting doc job) = elim (submit s.pool job) [
    | sent pool ↦ (
      record s { pool = pool },
      ended (ok (record { document = doc; job = job; reused = false })),
    )
    | queue_full ↦ (s, ended (err queue_is_full))
    | panicked ↦ (s, ended (err pool_panic))
  ]
  advance s (ended result) = (s, ended result)

  -- The id that a Create uses is not in use.
  abbrev pub IsFresh : Service → Flight → Type 0
  IsFresh s (recording doc) = get s.docs.by_id doc.id ≡ none
  IsFresh s (filing doc) = get s.jobs.by_id d.job_id ≡ none
  IsFresh s _ = Unit

-- The service with the uploads in flight.
pub record Flights : Type 0 where
  pub service : Service
  pub uploads : List Flight

-- An upload arrives, one takes its next step, a worker writes the record of its job, or the pool takes a
-- step that accepts nothing.
pub data Step (o : Outside) : Flights → Flights → Type 0 where
  arrives :
      {s : Flights} (uploader filename category : Text) (r : Reader)
      → Step o s (record s { uploads = begin uploader filename category r ∷ s.uploads })
  moves :
      {s : Flights} (d : Draw) (before after : List Flight) (f : Flight)
      → s.uploads ≡ before ++ (f ∷ after)
      → IsFresh o d s.service f
      → Step o s (record {
        service = (advance o d s.service f).0;
        uploads = before ++ ((advance o d s.service f).1 ∷ after);
      })
  writes :
      {s : Flights} (before after : List Job) (job written : Job)
      → s.service.pool.busy ≡ before ++ (job ∷ after)
      → written.id ≡ job.id
      → written.document_id ≡ job.document_id
      → Step o s (record s { service = record s.service { jobs = save s.service.jobs written } })
  works :
      {s : Flights} {pool : Pool Job}
      → Worker.Step s.service.pool pool
      → pool.accepted ≡ s.service.pool.accepted
      → Step o s (record s { service = record s.service { pool = pool } })

pub data Run (o : Outside) (s : Flights) : Flights → Type 0 where
  here : Run o s s
  next : {t u : Flights} → Run o s t → Step o t u → Run o s u
