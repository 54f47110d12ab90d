-- ===== src/Ingestion/System.antt =====
-- Uploads and the processing of their jobs at the same time (gateway-go/internal/ingestion/service.go):
-- uploads are made one at a time, between them the workers write to the records.
pub mod Served
mod Tests
use financial_ai_platform.Prelude.{ℕ, ◌≡◌, none, List, ◌∷◌, ◌++◌, Text, get}
use financial_ai_platform.Worker.{Pool}
use financial_ai_platform.Worker.Steps as Worker
use financial_ai_platform.Ingestion.Records.{Job}
use financial_ai_platform.Ingestion.Service.{Service, Outside, Draw, Reader, upload}
use financial_ai_platform.Ingestion.Process.{save}

-- `uploads` is a whole call of `Upload` with fresh ids; `writes` is one update of the record of a job by
-- the worker that processes it, which leaves the ids alone; `works` is any step of the pool that accepts
-- no job: of a worker, of `Stop`, or a cancellation.
pub data Step (o : Outside) : Service → Service → Type 0 where
  uploads :
      {s : Service} (d : Draw) (uploader filename category : Text) (r : Reader)
      → get s.docs.by_id d.doc_id ≡ none
      → get s.jobs.by_id d.job_id ≡ none
      → Step o s (upload o s d uploader filename category r).0
  writes :
      {s : Service} (before after : List Job) (job written : Job)
      → s.pool.busy ≡ before ++ (job ∷ after)
      → written.id ≡ job.id
      → written.document_id ≡ job.document_id
      → Step o s (record s { jobs = save s.jobs written })
  works :
      {s : Service} {pool : Pool Job}
      → Worker.Step s.pool pool
      → pool.accepted ≡ s.pool.accepted
      → Step o s (record s { pool = pool })

pub data Run (o : Outside) (s : Service) : Service → Type 0 where
  here : Run o s s
  next : {t u : Service} → Run o s t → Step o t u → Run o s u
