-- ===== src/Ingestion/Service/Stored.antt =====
-- The object of a new document (gateway-go/internal/ingestion/service.go).
use financial_ai_platform.Prelude.{
  ◌≡◌, ◌≢◌, refl, ap, inl, inr, arith, false, some, Result-cases, Text, get, to_lower, text_eq, lit,
  [], ok, err, ◌++◌, ◌∷◌,
}
use financial_ai_platform.Ingestion.DocType.{
  DocumentType, upload_doc_type, doc_type_for_filename, ext, unsupported_extension,
}
use financial_ai_platform.Ingestion.Service.{
  Service, Outside, Draw, Reader, UploadResult, read_upload, reuse, enqueue, create_upload,
  upload_bytes, read_and_upload, upload,
}

-- A name without an extension that is known is refused.
upload_doc_type_named :
    (category filename : Text) (dt : DocumentType)
    → upload_doc_type category filename ≡ ok dt
    → (filename ≢ []) × (filename ≢ lit ".") × (filename ≢ lit "..")
unfolding upload_doc_type doc_type_for_filename ext get to_lower text_eq
upload_doc_type_named category filename dt h =
    let unknown : (f : Text)
        → upload_doc_type category f ≡ err unsupported_extension
        → filename ≢ f =
      λ f e same. ground (arith, ap (upload_doc_type category) same, e) in
    (unknown [] refl, unknown (lit ".") refl, unknown (lit "..") refl)

module _ (o : Outside) (s : Service) (d : Draw) (r : Reader) where
  -- The bytes were read, the name was accepted, and the object store took the bytes under the key of the
  -- document.
  pub record Stores (filename : Text) (result : UploadResult) : Type 0 where
    pub bytes : Text
    pub was_read : read_upload r ≡ ok bytes
    pub named : (filename ≢ []) × (filename ≢ lit ".") × (filename ≢ lit "..")
    pub taken : o.store_put (d.doc_id ++ (b'/' ∷ filename)) bytes ≡ some result.document.storage_uri

  upload_bytes_taken :
      (uploader filename : Text) (dt : DocumentType) (bytes : Text) (result : UploadResult)
      (s' : Service)
      → upload_bytes o s d uploader filename dt bytes ≡ (s', ok result)
      → result.reused ≡ false
      → o.store_put (d.doc_id ++ (b'/' ∷ filename)) bytes ≡ some result.document.storage_uri
  unfolding upload_bytes reuse create_upload enqueue
  upload_bytes_taken uploader filename dt bytes result s' h new = ground arith

  pub upload-Stores :
      (uploader filename category : Text) (result : UploadResult) (s' : Service)
      → upload o s d uploader filename category r ≡ (s', ok result)
      → result.reused ≡ false
      → Stores filename result
  unfolding upload read_and_upload
  upload-Stores uploader filename category result s' h new =
      elim (Result-cases (upload_doc_type category filename)) [
        | inr (x, e) ↦ absurd (ground arith)
        | inl (dt, e) ↦ elim (Result-cases (read_upload r)) [
          | inr (x, f) ↦ absurd (ground arith)
          | inl (bytes, f) ↦ record {
            bytes = bytes;
            was_read = f;
            named = upload_doc_type_named category filename dt e;
            taken = upload_bytes_taken uploader filename dt bytes result s' (ground arith) new;
          }
        ]
      ]
