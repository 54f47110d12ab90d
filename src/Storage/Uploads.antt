-- ===== src/Storage/Uploads.antt =====
-- Uploads over the object store of a directory (gateway-go/internal/ingestion/service.go,
-- gateway-go/internal/storage/local.go), read by the ML service (ml-service/app/storage.py).
use financial_ai_platform.Prelude.{
  ◌≡◌, ap, false, List, ◌∷◌, All, Option, none, some, Text, Lacks, ok, err, Result,
}
use financial_ai_platform.Ingestion.Service.{
  Service, Outside, Draw, Reader, UploadResult, read_upload, upload,
}
use financial_ai_platform.Ingestion.Service.Stored.{upload-Stores}
use financial_ai_platform.Storage.Paths.{rooted, IsPlain, below, key_of}
use financial_ai_platform.Storage.{
  LocalObjectStore, StorageError, Attempt, Files, put_object, read_object,
}
use financial_ai_platform.Storage.Utf8.{IsUtf8}
use financial_ai_platform.Storage.Kept.{Storing, store, store_all, Others, read_object-put_object}

-- The error of a store is passed on without its text.
abbrev pub to_option : Result StorageError Text → Option Text
to_option (ok uri) = some uri
to_option (err e) = none

to_option_ok : (r : Result StorageError Text) (uri : Text) → to_option r ≡ some uri → r ≡ ok uri
to_option_ok (ok uri') uri h = cc
to_option_ok (err e) uri h = cc

-- The store as the ingestion service sees it during one call, with the files as they are.
abbrev pub outside_with : (Text → Text) → LocalObjectStore → Attempt → Files → Outside
outside_with digest s a files = record {
  digest = digest;
  store_put = λ key bytes. to_option (put_object s a files key bytes).1;
}

module _ (d : Text) (dir : List Text) (a : Attempt) (files : Files) where
  abbrev pub outside : (Text → Text) → Outside
  outside digest = outside_with digest (store d dir) a files

  abbrev pub files_after : Draw → Text → Text → Files
  files_after draw filename bytes =
      (put_object (store d dir) a files (key_of draw.doc_id filename) bytes).0

  -- The bytes of an upload that made a new document are what the ML service reads at the URI of this
  -- document, whatever objects are stored later for other documents, if the path is UTF-8, the file
  -- name has no slash, and the parts of the store's directory and the id of the document stand for
  -- themselves in a path.
  pub read_object-upload :
      (digest : Text → Text) (s s' : Service) (draw : Draw) (r : Reader)
      (uploader filename category : Text) (result : UploadResult) (later : List Storing)
      → All IsPlain (d ∷ dir)
      → IsPlain draw.doc_id
      → Lacks b'/' filename
      → IsUtf8 (rooted (below (d ∷ dir) draw.doc_id filename))
      → upload (outside digest) s draw uploader filename category r ≡ (s', ok result)
      → result.reused ≡ false
      → Others d dir draw.doc_id later
      → (bytes : Text) × (read_upload r ≡ ok bytes)
        × (read_object
              (store_all d dir later (files_after draw filename bytes))
              result.document.storage_uri
            ≡ some bytes)
  read_object-upload digest s s' draw r uploader filename category result later plain plain_id
        no_slash is_utf8 uploaded new others =
      let v =
        upload-Stores (outside digest) s draw r uploader filename category result s' uploaded new in
      let uri = result.document.storage_uri in
      let put = put_object (store d dir) a files (key_of draw.doc_id filename) v.bytes in
      let taken : put.1 ≡ ok uri = to_option_ok put.1 uri v.taken in
      let with_result : Result StorageError Text → Files × Result StorageError Text =
        λ result'. (put.0, result') in
      (
        v.bytes,
        v.was_read,
        read_object-put_object d dir plain draw.doc_id filename plain_id
            (no_slash, v.named.0, v.named.1, v.named.2) a files put.0 v.bytes uri later is_utf8
            (ap with_result taken) others,
      )
