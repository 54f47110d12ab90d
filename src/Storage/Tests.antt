-- ===== src/Storage/Tests.antt =====
-- An upload whose file name holds a space.
use financial_ai_platform.Prelude.{
  ◌≡◌, refl, arith, true, false, none, some, [], ◌∷◌, List, Text, lit, get, put, text_eq, to_lower,
  ok, err, split, cut_prefix,
}
use financial_ai_platform.Worker.{new_pool, start, submit}
use financial_ai_platform.Ingestion.DocType.{
  category_general, txt, upload_doc_type, doc_type_for_filename, ext,
}
use financial_ai_platform.Ingestion.Records.{new_job}
use financial_ai_platform.Ingestion.Documents
use financial_ai_platform.Ingestion.Jobs
use financial_ai_platform.Ingestion.Service.{
  UploadResult, Service, max_upload_buffer_bytes, read_upload, upload,
}
use financial_ai_platform.Ingestion.Fixtures.{draw_a, report, roomy}
use financial_ai_platform.Storage.Paths.{clean, join, rooted, clean_parts}
use financial_ai_platform.Storage.Uris.{
  escape, should_escape, path_to_file_uri, pathname, hex_value,
}
use financial_ai_platform.Storage.Utf8.{ascii-IsUtf8}
use financial_ai_platform.Storage.{
  Attempt, put_object, read_object, write_failed, no_base_dir, new_local_object_store,
}
use financial_ai_platform.Storage.Kept.{Storing, store, store_all}
use financial_ai_platform.Storage.Uploads.{outside, files_after, read_object-upload}

join_example : join (lit "/data") (lit "d1/../d2/./q.txt") ≡ lit "/data/d2/q.txt"
unfolding join clean clean_parts split rooted text_eq
join_example = refl

escaped : path_to_file_uri (lit "/data/q 1#?.txt") ≡ lit "file:///data/q%201%23%3F.txt"
unfolding path_to_file_uri escape should_escape
escaped = refl

abbrev works : Attempt
works = record { parent_fails = false; create_fails = false; breaks_after = none }

abbrev breaks : Attempt
breaks = record { parent_fails = false; create_fails = false; breaks_after = some 3 }

-- A write that fails leaves the start of the object.
broken_write :
    put_object (store (lit "data") []) breaks [] (lit "d2/q.txt") (lit "revenue")
    ≡ ((lit "/data/d2/q.txt", lit "rev") ∷ [], err write_failed)
unfolding put_object join clean clean_parts split rooted text_eq put
broken_write = refl

abbrev later : List Storing
later = record { attempt = breaks; id = lit "d2"; name = lit "q 1.txt"; bytes = lit "costs" } ∷ []

abbrev result : UploadResult
result = record {
  document = record {
    id = lit "d1";
    filename = lit "q 1.txt";
    doc_type = txt;
    storage_uri = lit "file:///data/d1/q%201.txt";
    content_hash = lit "revenue";
    size_bytes = 7;
    uploaded_by = lit "u1";
    created_at = 10;
  };
  job = new_job (lit "j1") (lit "d1") 10;
  reused = false;
}

abbrev uploaded : Service
uploaded =
    (upload (outside (lit "data") [] works [] (λ b. b)) roomy draw_a (lit "u1") (lit "q 1.txt")
      category_general report).0

read_object-upload_example :
    (bytes : Text) × (read_upload report ≡ ok bytes)
    × (read_object
          (store_all
            (lit "data")
            []
            later
            (files_after (lit "data") [] works [] draw_a (lit "q 1.txt") bytes))
          (lit "file:///data/d1/q%201.txt")
        ≡ some bytes)
unfolding upload upload_doc_type doc_type_for_filename ext get to_lower text_eq read_upload
    max_upload_buffer_bytes Documents.find_by_content_hash Documents.create Jobs.create put submit
    new_pool start put_object join clean clean_parts split rooted path_to_file_uri escape
    should_escape
read_object-upload_example =
    read_object-upload (lit "data") [] works [] (λ b. b) roomy uploaded draw_a report (lit "u1")
      (lit "q 1.txt") category_general result later (ground arith) (ground arith) (ground arith)
      (ascii-IsUtf8 (lit "/data/d1/q 1.txt") (ground arith)) refl refl (ground arith)

-- A path that is not UTF-8 is read as another one.
replaced :
    pathname (path_to_file_uri (b'/' ∷ 195 ∷ 169 ∷ 224 ∷ 160 ∷ 255 ∷ []))
    ≡ some (b'/' ∷ 195 ∷ 169 ∷ 239 ∷ 191 ∷ 189 ∷ 239 ∷ 191 ∷ 189 ∷ [])
unfolding pathname path_to_file_uri escape should_escape hex_value cut_prefix
replaced = refl

-- The directory of a store is absolute; one that cannot be made has no store.
opened :
    (new_local_object_store (λ dir. true) (λ dir. some (b'/' ∷ dir)) (lit "data")
      ≡ ok (store (lit "data") []))
    × (new_local_object_store (λ dir. false) (λ dir. none) (lit "data") ≡ err no_base_dir)
unfolding new_local_object_store rooted
opened = (refl, refl)
