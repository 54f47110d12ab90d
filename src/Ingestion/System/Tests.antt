-- ===== src/Ingestion/System/Tests.antt =====
-- One upload and the start of its processing.
use financial_ai_platform.Prelude.{refl, [], ◌∷◌, lit, text_eq, get, put, to_lower}
use financial_ai_platform.Worker.{submit, new_pool, start}
use financial_ai_platform.Worker.Steps as Worker
use financial_ai_platform.Ingestion.DocType.{
  category_general, ext, doc_type_for_filename, upload_doc_type,
}
use financial_ai_platform.Ingestion.Records.{Job, new_job, extracting}
use financial_ai_platform.Ingestion.Documents
use financial_ai_platform.Ingestion.Jobs
use financial_ai_platform.Ingestion.Service.{Service, read_upload, max_upload_buffer_bytes, upload}
use financial_ai_platform.Ingestion.Process.{save}
use financial_ai_platform.Ingestion.System.{Run, here, next, uploads, works, writes}
use financial_ai_platform.Ingestion.System.Served.{IsSound, Run-IsSound}
use financial_ai_platform.Ingestion.Fixtures.{outside, draw_a, report, roomy, after_a}

-- The job of the report is taken by the worker, and marked as extracting.
abbrev job_a : Job
job_a = new_job (lit "j1") (lit "d1") 10

abbrev taken : Service
taken = record after_a {
  pool = record after_a.pool { queue = []; polling = 0; busy = job_a ∷ []; started = job_a ∷ [] };
}

abbrev marked : Service
marked = record taken { jobs = save taken.jobs (record job_a { status = extracting }) }

to_marked : Run outside roomy marked
unfolding after_a get upload upload_doc_type doc_type_for_filename ext to_lower text_eq read_upload
    max_upload_buffer_bytes Documents.find_by_content_hash Documents.create Jobs.create put submit
    new_pool start
to_marked =
    next
      (next (next here (uploads draw_a (lit "u1") (lit "q1.TXT") category_general report refl refl))
        (works (Worker.take job_a [] 0 refl refl) refl))
      (writes [] [] job_a (record job_a { status = extracting }) refl refl refl)

Run-IsSound_example : IsSound marked
Run-IsSound_example = Run-IsSound outside 1 1 marked to_marked
