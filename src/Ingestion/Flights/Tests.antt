-- ===== src/Ingestion/Flights/Tests.antt =====
-- Two uploads of the same bytes at the same time.
use financial_ai_platform.Prelude.{
  ◌≡◌, refl, true, [], ◌∷◌, List, lit, text_eq, get, put, to_lower, ok, err,
}
use financial_ai_platform.Worker.{submit, new_pool, start}
use financial_ai_platform.Ingestion.DocType.{
  category_general, txt, no_job_for_duplicate, ext, doc_type_for_filename, upload_doc_type,
}
use financial_ai_platform.Ingestion.Records.{Document, Job, new_job}
use financial_ai_platform.Ingestion.Documents
use financial_ai_platform.Ingestion.Jobs
use financial_ai_platform.Ingestion.Service.{
  Service, read_upload, max_upload_buffer_bytes, new_document,
}
use financial_ai_platform.Ingestion.Fixtures.{outside, draw_a, draw_b, report, roomy}
use financial_ai_platform.Ingestion.Flights.{
  Flight, looking, storing, reusing, recording, filing, submitting, ended, begin, advance, Flights,
  arrives, moves, Run, here, next,
}
use financial_ai_platform.Ingestion.Flights.Interleaved.{AreSound, Run-AreSound}
use financial_ai_platform.Ingestion.Flights.Unfiled.{advance_unfiled}

abbrev first : Flight
first = begin (lit "u1") (lit "q1.txt") category_general report

abbrev second : Flight
second = looking (lit "u2") (lit "q2.txt") txt (lit "revenue")

abbrev document_a : Document
document_a =
    new_document outside draw_a (lit "u1") (lit "q1.txt") txt (lit "revenue") (lit "d1/q1.txt")

-- The document of the first is recorded.
abbrev recorded : Service
recorded = (advance outside draw_a roomy (recording document_a)).0

abbrev filed : Service
filed = (advance outside draw_a recorded (filing document_a)).0

abbrev job_a : Job
job_a = new_job (lit "j1") (lit "d1") 10

advance_unfiled_example :
    (advance outside draw_b recorded second ≡ (recorded, reusing document_a))
    × (advance outside draw_b recorded (reusing document_a)
        ≡ (recorded, ended (err no_job_for_duplicate)))
    × (advance outside draw_b filed (reusing document_a)
        ≡ (filed, ended (ok (record { document = document_a; job = job_a; reused = true }))))
unfolding get
advance_unfiled_example =
    advance_unfiled outside draw_a draw_b roomy document_a (lit "u2") (lit "q2.txt") txt
      (lit "revenue") refl refl

-- Both have arrived, the first has recorded its document, and the second has failed in between.
abbrev last : Flights
last = record {
  service = (advance outside draw_a filed (submitting document_a job_a)).0;
  uploads =
      ended (err no_job_for_duplicate)
      ∷ (advance outside draw_a filed (submitting document_a job_a)).1
      ∷ [];
}

to_last : Run outside (record { service = roomy; uploads = [] }) last
unfolding begin advance get upload_doc_type doc_type_for_filename ext to_lower text_eq read_upload
    max_upload_buffer_bytes Documents.find_by_content_hash Documents.create Jobs.create
    Jobs.find_latest_by_document_id put submit new_pool start
to_last =
    let one : List Flight = ended (err no_job_for_duplicate) ∷ [] in
    let first_arrives = next here (arrives (lit "u1") (lit "q1.txt") category_general report) in
    let both = next first_arrives (arrives (lit "u2") (lit "q2.txt") category_general report) in
    let looked = next both (moves draw_a (second ∷ []) [] first refl tt) in
    let stored = next looked (
      moves draw_a (second ∷ []) [] (storing (lit "u1") (lit "q1.txt") txt (lit "revenue")) refl
        tt) in
    let known = next stored (moves draw_a (second ∷ []) [] (recording document_a) refl refl) in
    let found = next known (moves draw_b [] (filing document_a ∷ []) second refl tt) in
    let failed =
      next found (moves draw_b [] (filing document_a ∷ []) (reusing document_a) refl tt) in
    let with_job = next failed (moves draw_a one [] (filing document_a) refl refl) in
    next with_job (moves draw_a one [] (submitting document_a job_a) refl tt)

Run-AreSound_example : AreSound last
Run-AreSound_example = Run-AreSound outside 1 1 last to_last
