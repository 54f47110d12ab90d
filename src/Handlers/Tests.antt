-- ===== src/Handlers/Tests.antt =====
-- The theorems about the handlers at concrete requests.
use financial_ai_platform.Prelude.{
  ◌≡◌, refl, false, none, some, [], ◌∷◌, Text, lit, text_eq, get, put, to_lower,
}
use financial_ai_platform.Auth.User.{User, role_user}
use financial_ai_platform.Auth.Repository.{create}
use financial_ai_platform.Auth.Token.{Claims, claims_for}
use financial_ai_platform.Auth.Middleware.{Context, current_claims}
use financial_ai_platform.Auth.Middleware.Guards.{bearer}
use financial_ai_platform.Auth.Fixtures.{service, ann, hour, spelled_jwt, encode}
use financial_ai_platform.Worker.{submit, new_pool, start}
use financial_ai_platform.Ingestion.DocType.{ext, doc_type_for_filename, upload_doc_type}
use financial_ai_platform.Ingestion.Documents
use financial_ai_platform.Ingestion.Jobs
use financial_ai_platform.Ingestion.Service as Ingestion
use financial_ai_platform.Ingestion.Service.Consistency.{IsConsistent-started}
use financial_ai_platform.Ingestion.Fixtures.{outside, draw_a, report, roomy, after_a}
use financial_ai_platform.Handlers.{json, status_ok, status_accepted}
use financial_ai_platform.Handlers.Accounts.{Credentials, UserResponse}
use financial_ai_platform.Handlers.Documents.{
  UploadRequest, UploadResponse, DocumentResponse, upload_document, show_document,
}
use financial_ai_platform.Handlers.Documents.Replies.{show_document-upload_document}

abbrev sign_up : Credentials
sign_up = record { email = lit "Ann@x.io"; password = lit "correct horse" }

abbrev ann_view : UserResponse
ann_view = record { id = lit "u1"; email = lit "Ann@x.io"; role = role_user }

abbrev ann_claims : Claims
ann_claims = claims_for spelled_jwt service.tokens hour ann

ann_token : Text
ann_token = encode ann_claims (lit "k1")

abbrev with_token : Context
with_token = record { authorization = bearer ann_token; claims = none }

abbrev upload_a : UploadRequest
upload_a = record {
  form_file = λ limit. some (lit "q1.TXT", some report);
  category = none;
  context = record { authorization = []; claims = some ann_claims };
}

abbrev accepted_a : UploadResponse
accepted_a = record {
  document_id = lit "d1";
  job_id = lit "j1";
  filename = lit "q1.TXT";
  status = lit "pending";
  reused = false;
}

upload_a_answered :
    upload_document outside 1000 roomy draw_a upload_a ≡ (after_a, json status_accepted accepted_a)
unfolding upload_document after_a Ingestion.upload upload_doc_type doc_type_for_filename ext get
    to_lower text_eq Ingestion.read_upload Ingestion.max_upload_buffer_bytes
    Documents.find_by_content_hash Documents.create Jobs.create put submit new_pool start
    current_claims claims_for
upload_a_answered = refl

show_document-upload_document_example :
    (doc : DocumentResponse) × (show_document (λ t. t ∷ []) after_a (lit "d1") ≡ json status_ok doc)
    × (doc.id ≡ lit "d1")
    × (doc.filename ≡ lit "q1.TXT")
    × (doc.job.status ≡ lit "pending")
show_document-upload_document_example =
    show_document-upload_document outside 1000 roomy draw_a upload_a after_a status_accepted
      accepted_a upload_a_answered (λ t. t ∷ []) (IsConsistent-started 1 1)
