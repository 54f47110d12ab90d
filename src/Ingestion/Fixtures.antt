-- ===== src/Ingestion/Fixtures.antt =====
-- Uploads to try the theorems of package ingestion (gateway-go/internal/ingestion) on.
use financial_ai_platform.Prelude.{◌≡◌, refl, false, some, lit, text_eq, get, put, to_lower}
use financial_ai_platform.Worker.{submit, new_pool, start}
use financial_ai_platform.Ingestion.DocType.{
  txt, category_general, ext, doc_type_for_filename, upload_doc_type,
}
use financial_ai_platform.Ingestion.Records.{Document}
use financial_ai_platform.Ingestion.Documents
use financial_ai_platform.Ingestion.Jobs
use financial_ai_platform.Ingestion.Service.{
  Service, Outside, Draw, Reader, started_service, read_upload, max_upload_buffer_bytes, upload,
}
use financial_ai_platform.Ingestion.Service.Consistency.{
  IsConsistent, IsConsistent-started, upload-IsConsistent,
}

-- A digest that is the bytes themselves, and a store that answers with the key.
abbrev pub outside : Outside
outside = record { digest = λ bytes. bytes; store_put = λ key bytes. some key }

abbrev pub draw_a : Draw
draw_a = record { doc_id = lit "d1"; job_id = lit "j1"; now = 10 }

abbrev pub draw_b : Draw
draw_b = record { doc_id = lit "d2"; job_id = lit "j2"; now = 20 }

abbrev pub report : Reader
report = record { bytes = lit "revenue"; fails = false }

-- A pool without a buffer, and one with room for one job.
abbrev pub cramped : Service
cramped = started_service 1 0

abbrev pub roomy : Service
roomy = started_service 1 1

unfoldable pub after_a : Service
after_a = (upload outside roomy draw_a (lit "u1") (lit "q1.TXT") category_general report).0

pub after_a-IsConsistent : IsConsistent after_a.docs after_a.jobs
unfolding after_a get
after_a-IsConsistent =
    upload-IsConsistent outside roomy draw_a (lit "u1") (lit "q1.TXT") category_general report
      (IsConsistent-started 1 1) refl refl

abbrev pub document_a : Document
document_a = record {
  id = lit "d1";
  filename = lit "q1.TXT";
  doc_type = txt;
  storage_uri = lit "d1/q1.TXT";
  content_hash = lit "revenue";
  size_bytes = 7;
  uploaded_by = lit "u1";
  created_at = 10;
}

pub document_a_stored : get after_a.docs.by_id (lit "d1") ≡ some document_a
unfolding after_a upload upload_doc_type doc_type_for_filename ext get to_lower text_eq read_upload
    max_upload_buffer_bytes Documents.find_by_content_hash Documents.create Jobs.create put submit
    new_pool start
document_a_stored = refl
