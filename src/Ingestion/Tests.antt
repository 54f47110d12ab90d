-- ===== src/Ingestion/Tests.antt =====
-- The theorems of package ingestion at concrete inputs.
use financial_ai_platform.Prelude.{
  false, ◌≡◌, refl, true, none, arith, lit, text_eq, get, put, to_lower, ok,
}
use financial_ai_platform.Worker.{submit, new_pool, start}
use financial_ai_platform.Ingestion.DocType.{
  txt, category_general, ext, doc_type_for_filename, upload_doc_type,
}
use financial_ai_platform.Ingestion.Records.{Job, new_job}
use financial_ai_platform.Ingestion.Documents
use financial_ai_platform.Ingestion.Jobs
use financial_ai_platform.Ingestion.Service.{read_upload, max_upload_buffer_bytes, upload}
use financial_ai_platform.Ingestion.Service.Consistency.{
  IsConsistent, IsConsistent-started, upload-IsConsistent,
}
use financial_ai_platform.Ingestion.Service.{
  create_upload, upload_bytes, new_document, get_document,
}
use financial_ai_platform.Ingestion.Service.Race.{upload_race}
use financial_ai_platform.Ingestion.Service.Duplicates.{upload_duplicate}
use financial_ai_platform.Ingestion.Process.{MlService, Clock, process_job}
use financial_ai_platform.Ingestion.Process.Outcome.{final_job, replaced, get-process_job}
use financial_ai_platform.Ingestion.Service.{UploadResult}
use financial_ai_platform.Ingestion.Fixtures.{
  outside, draw_a, draw_b, report, roomy, after_a, after_a-IsConsistent, document_a,
  document_a_stored,
}

upload-IsConsistent_example : IsConsistent after_a.docs after_a.jobs
unfolding after_a get
upload-IsConsistent_example =
    upload-IsConsistent outside roomy draw_a (lit "u1") (lit "q1.TXT") category_general report
      (IsConsistent-started 1 1) refl refl

report_read : read_upload report ≡ ok (lit "revenue")
unfolding read_upload max_upload_buffer_bytes
report_read = refl

text_name : upload_doc_type category_general (lit "copy.txt") ≡ ok txt
unfolding upload_doc_type doc_type_for_filename ext get to_lower text_eq
text_name = refl

upload_duplicate_example :
    (job : Job) × (job.document_id ≡ lit "d1")
    × (upload outside after_a draw_b (lit "u2") (lit "copy.txt") category_general report
        ≡ (after_a, ok (record { document = document_a; job = job; reused = true })))
upload_duplicate_example =
    upload_duplicate outside after_a draw_b (lit "u2") (lit "copy.txt") category_general report txt
      (lit "revenue") document_a after_a-IsConsistent text_name report_read document_a_stored refl

abbrev ml : MlService
ml = record {
  extract_document = λ id uri dt.
      ok (record { raw_text = lit "text"; tables = 1; page_count = 2; inferred_metadata = none });
  chunk_and_embed = λ id text md. ok (record { chunks_total = 3; chunks_skipped_duplicate = 1 });
}

abbrev clock : Clock
clock = record { extraction = 11; embedding_start = 12; finish = 13 }

abbrev job_a : Job
job_a = new_job (lit "j1") (lit "d1") 10

get-process_job_example :
    get (process_job ml clock after_a.docs after_a.jobs job_a).by_id (lit "j1")
    ≡ replaced ml clock after_a.docs job_a after_a.jobs
        (lit "j1")
        (final_job ml clock after_a.docs job_a)
get-process_job_example = get-process_job ml clock after_a.docs job_a after_a.jobs (lit "j1")

abbrev result_a : UploadResult
result_a = record { document = document_a; job = new_job (lit "j1") (lit "d1") 10; reused = false }

uploaded_a :
    upload outside roomy draw_a (lit "u1") (lit "q1.TXT") category_general report
    ≡ (after_a, ok result_a)
unfolding after_a upload upload_doc_type doc_type_for_filename ext get to_lower text_eq read_upload
    max_upload_buffer_bytes Documents.find_by_content_hash Documents.create Jobs.create put submit
    new_pool start
uploaded_a = refl

-- Both uploads of the report have looked up its hash before either has recorded its document.
upload_race_example :
    let one = create_upload outside roomy draw_a (lit "u1") (lit "q1.txt") txt (lit "revenue") in
    let both =
      (create_upload outside one.0 draw_b (lit "u2") (lit "q2.txt") txt (lit "revenue")).0 in
    let a =
      new_document outside draw_a (lit "u1") (lit "q1.txt") txt (lit "revenue") (lit "d1/q1.txt") in
    let b =
      new_document outside draw_b (lit "u2") (lit "q2.txt") txt (lit "revenue") (lit "d2/q2.txt") in
    (upload_bytes outside roomy draw_a (lit "u1") (lit "q1.txt") txt (lit "revenue") ≡ one)
    × (upload_bytes outside roomy draw_b (lit "u2") (lit "q2.txt") txt (lit "revenue")
        ≡ create_upload outside roomy draw_b (lit "u2") (lit "q2.txt") txt (lit "revenue"))
    × (get_document both (lit "d1") ≡ ok a)
    × (get_document both (lit "d2") ≡ ok b)
    × (lit "revenue" ≡ lit "revenue")
    × (Documents.find_by_content_hash both.docs (lit "revenue") ≡ ok b)
unfolding Documents.find_by_content_hash get
upload_race_example =
    upload_race outside roomy draw_a draw_b (lit "u1") (lit "q1.txt") (lit "u2") (lit "q2.txt") txt
      txt (lit "revenue") (lit "d1/q1.txt") (lit "d2/q2.txt") refl refl refl (λ e. ground arith)
