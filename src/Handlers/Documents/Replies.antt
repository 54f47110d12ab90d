-- ===== src/Handlers/Documents/Replies.antt =====
-- What the two routes of a document answer, gateway-go/internal/handlers/documents.go.
use financial_ai_platform.Prelude.{
  ℕ, ◌≤◌, ◌≡◌, ◌≢◌, refl, ap, ◌∙◌, inl, inr, arith, true, false, if◌then◌else◌, Bool-cases, none,
  some, Option-cases, ◌++◌, Text, length, take, drop, length-take, take-append-drop, append-nil,
  ltb, le_of_not_ltb, ltb→lt, [], Result-cases, ok,
}
use financial_ai_platform.Auth.Middleware.{current_claims}
use financial_ai_platform.Ingestion.DocType.{UploadError}
use financial_ai_platform.Ingestion.Service.{Service, Outside, Draw, Reader, UploadResult, upload}
use financial_ai_platform.Ingestion.Service.Consistency.{IsConsistent}
use financial_ai_platform.Ingestion.Service.Found.{upload-Finds}
use financial_ai_platform.Handlers.{json, status_ok, status_accepted}
use financial_ai_platform.Handlers.Documents.{
  UploadRequest, UploadResponse, upload_response, uploaded_reply, write_upload_error, with_claims,
  opened, upload_document, category_or_general, preview, extracted_text_preview_chars,
  DocumentResponse, document_response, job_reply, show_document,
}

write_upload_error-ne :
    {V : Type 0} (filename : Text) (e : UploadError) (status : ℕ) (v : V)
    → write_upload_error filename e ≢ json status v
unfolding write_upload_error
write_upload_error-ne filename e status v h = ground arith

-- An upload that was answered with a view.
record Answered (o : Outside) (limit : ℕ) (s : Service) (d : Draw) (req : UploadRequest)
    (s' : Service) (status : ℕ) (view : UploadResponse) : Type 0 where
  uploader : Text
  filename : Text
  file : Reader
  result : UploadResult
  done : upload o s d uploader filename (category_or_general req.category) file ≡ (s', ok result)
  seen : view ≡ upload_response result
  status_is : status ≡ (if result.reused then status_ok else status_accepted)

module _ (o : Outside) (limit : ℕ) (s : Service) (d : Draw) (req : UploadRequest) (s' : Service)
    (status : ℕ) (view : UploadResponse)
    (answered : upload_document o limit s d req ≡ (s', json status view)) where
  upload_document-Answered : Answered o limit s d req s' status view
  unfolding upload_document opened with_claims uploaded_reply current_claims
  upload_document-Answered = elim (Option-cases (req.form_file limit)) [
    | inl e ↦ absurd (ground arith)
    | inr ((filename, none), e) ↦ absurd (ground arith)
    | inr ((filename, some file), e) ↦ elim (Option-cases req.context.claims) [
      | inl f ↦ absurd (ground arith)
      | inr (claims, f) ↦
          let call = upload o s d claims.user_id filename (category_or_general req.category) file in
          elim (Result-cases call.1) [
            | inl (result, g) ↦ record {
              uploader = claims.user_id;
              filename = filename;
              file = file;
              result = result;
              done = ground arith;
              seen = ground arith;
              status_is = ground arith;
            }
            | inr (x, g) ↦
                absurd (
                  ground (arith, write_upload_error-ne {V = UploadResponse} filename x status view))
          ]
    ]
  ]

  -- With consistent records, after an upload was answered with a view, `GetDocument` for its document
  -- answers 200 with the id, the name and the job's status of that view.
  pub show_document-upload_document :
      (rfc3339 : ℕ → Text)
      → IsConsistent s.docs s.jobs
      → (doc : DocumentResponse) × (show_document rfc3339 s' view.document_id ≡ json status_ok doc)
        × (doc.id ≡ view.document_id)
        × (doc.filename ≡ view.filename)
        × (doc.job.status ≡ view.status)
  unfolding show_document job_reply document_response
  show_document-upload_document rfc3339 v =
      let a = upload_document-Answered in
      let found =
        upload-Finds o s v d a.uploader a.filename (category_or_general req.category) a.file
          a.result s' a.done in
      (
        document_response rfc3339 a.result.document a.result.job,
        ground (arith, a.seen, found),
        ground (arith, a.seen),
        ground (arith, a.seen),
        ground (arith, a.seen),
      )

preview_short : (text : Text) → ltb 500 (length text) ≡ false → preview text ≡ text
unfolding preview
preview_short text h = rw h refl

preview_long : (text : Text) → ltb 500 (length text) ≡ true → preview text ≡ take 500 text
unfolding preview
preview_long text h = rw h refl

-- The preview of a text is a prefix of it, of at most 500 bytes, and the whole text if that is no
-- longer.
pub preview_cases :
    (text : Text)
    → (length (preview text) ≤ extracted_text_preview_chars)
      × ((rest : Text) × (preview text ++ rest ≡ text))
      × (length text ≤ extracted_text_preview_chars → preview text ≡ text)
preview_cases text = elim (Bool-cases (ltb 500 (length text))) [
  | inl e ↦
      let long = preview_long text e in
      (
        omega (arith, ap length long, length-take 500 text),
        (drop 500 text, ap (λ t. t ++ drop 500 text) long ∙ take-append-drop 500 text),
        λ h. absurd (omega (arith, h, ltb→lt 500 (length text) e)),
      )
  | inr e ↦
      let short = preview_short text e in
      (
        rw short (le_of_not_ltb 500 (length text) e),
        ([], ap (λ t. t ++ []) short ∙ append-nil text),
        λ h. short,
      )
]
