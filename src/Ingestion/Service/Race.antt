-- ===== src/Ingestion/Service/Race.antt =====
-- Two uploads of the same bytes at once (gateway-go/internal/ingestion/service.go): the lookup of the
-- content hash and the creation of the records are two calls, each with its own lock.
use financial_ai_platform.Prelude.{
  ◌≡◌, ◌≢◌, refl, ap, ◌∙◌, arith, some, Text, text_eq_iff, put, get-put, get-put_self, ok, err,
  ◌++◌, ◌∷◌,
}
use financial_ai_platform.Ingestion.DocType.{DocumentType}
use financial_ai_platform.Ingestion.Records.{Document, document_not_found, MemoryDocumentRepository}
use financial_ai_platform.Ingestion.Documents
use financial_ai_platform.Ingestion.Service.{
  Service, Outside, Draw, new_document, enqueue, create_upload, upload_bytes, get_document,
}

-- Two documents recorded one after the other, with one hash.
both_stored :
    (r : MemoryDocumentRepository) (a b : Document)
    → b.id ≢ a.id
    → b.content_hash ≡ a.content_hash
    → let both = Documents.create (Documents.create r a) b in
      (Documents.find_by_id both a.id ≡ ok a)
      × (Documents.find_by_id both b.id ≡ ok b)
      × (Documents.find_by_content_hash both a.content_hash ≡ ok b)
unfolding Documents.find_by_id Documents.find_by_content_hash Documents.create
both_stored r a b distinct same =
    let by_id = put r.by_id a.id a in
    let by_hash = put r.by_hash a.content_hash a.id in
    let old = get-put by_id b.id a.id b in
    let first = get-put_self r.by_id a.id a in
    let second = get-put_self by_id b.id b in
    let hash = get-put_self by_hash b.content_hash b.id in
    let unlike = text_eq_iff b.id a.id in (ground arith, ground arith, ground arith)

module _ (o : Outside) where
  create_unknown :
      (s : Service) (d : Draw) (uploader filename : Text) (dt : DocumentType) (bytes : Text)
      → Documents.find_by_content_hash s.docs (o.digest bytes) ≡ err document_not_found
      → upload_bytes o s d uploader filename dt bytes
        ≡ create_upload o s d uploader filename dt bytes
  unfolding upload_bytes
  create_unknown s d uploader filename dt bytes unknown = rw (unknown, upload_bytes) refl

  -- The records are written whatever the queue answers.
  docs-create_upload :
      (s : Service) (d : Draw) (uploader filename : Text) (dt : DocumentType) (bytes uri : Text)
      → o.store_put (d.doc_id ++ (b'/' ∷ filename)) bytes ≡ some uri
      → (create_upload o s d uploader filename dt bytes).0.docs
        ≡ Documents.create s.docs (new_document o d uploader filename dt bytes uri)
  unfolding create_upload enqueue
  docs-create_upload s d uploader filename dt bytes uri put = ground arith

  -- Each of two uploads of the same bytes, with distinct ids, that both look up the content hash
  -- before either has recorded its document creates one, if the object store takes the bytes: both
  -- are then stored, with the same hash, and the hash finds only the second.
  pub upload_race :
      (s : Service) (first second : Draw) (uploader filename uploader' filename' : Text)
      (dt dt' : DocumentType) (bytes uri uri' : Text)
      → Documents.find_by_content_hash s.docs (o.digest bytes) ≡ err document_not_found
      → o.store_put (first.doc_id ++ (b'/' ∷ filename)) bytes ≡ some uri
      → o.store_put (second.doc_id ++ (b'/' ∷ filename')) bytes ≡ some uri'
      → second.doc_id ≢ first.doc_id
      → let one = create_upload o s first uploader filename dt bytes in
        let both = (create_upload o one.0 second uploader' filename' dt' bytes).0 in
        let a = new_document o first uploader filename dt bytes uri in
        let b = new_document o second uploader' filename' dt' bytes uri' in
        (upload_bytes o s first uploader filename dt bytes ≡ one)
        × (upload_bytes o s second uploader' filename' dt' bytes
            ≡ create_upload o s second uploader' filename' dt' bytes)
        × (get_document both first.doc_id ≡ ok a)
        × (get_document both second.doc_id ≡ ok b)
        × (a.content_hash ≡ b.content_hash)
        × (Documents.find_by_content_hash both.docs (o.digest bytes) ≡ ok b)
  unfolding get_document
  upload_race s first second uploader filename uploader' filename' dt dt' bytes uri uri' unknown
        put_a put_b distinct =
      let one = create_upload o s first uploader filename dt bytes in
      let both = (create_upload o one.0 second uploader' filename' dt' bytes).0 in
      let a = new_document o first uploader filename dt bytes uri in
      let b = new_document o second uploader' filename' dt' bytes uri' in
      let recorded : both.docs ≡ Documents.create (Documents.create s.docs a) b =
        docs-create_upload one.0 second uploader' filename' dt' bytes uri' put_b
        ∙ ap (λ t. Documents.create t b)
            (docs-create_upload s first uploader filename dt bytes uri put_a) in
      let (found_a, found_b, found_hash) = both_stored s.docs a b distinct refl in
      (
        create_unknown s first uploader filename dt bytes unknown,
        create_unknown s second uploader' filename' dt' bytes unknown,
        ap (λ t. Documents.find_by_id t a.id) recorded ∙ found_a,
        ap (λ t. Documents.find_by_id t b.id) recorded ∙ found_b,
        refl,
        ap (λ t. Documents.find_by_content_hash t a.content_hash) recorded ∙ found_hash,
      )
