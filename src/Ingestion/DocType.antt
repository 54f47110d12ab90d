-- ===== src/Ingestion/DocType.antt =====
-- The document type of a file name (gateway-go/internal/ingestion/doctype.go), and the choice that
-- `Upload` makes of it (service.go).
pub mod Extensions
use financial_ai_platform.Prelude.{
  Bool, true, false, List, [], ◌∷◌, Option, none, some, if◌then◌else◌, ◌==◌, Text, lit, text_eq,
  to_lower, Dict, get, Result, ok, err,
}
use mathlib.Core.List.{reverse}

-- The enum of proto/common/v1/common.proto.
pub data DocumentType : Type 0 where
  unspecified pdf docx html txt sec_filing : DocumentType

-- `type Category string`
abbrev pub category_general : Text
category_general = lit "general"

abbrev pub category_sec_filing : Text
category_sec_filing = lit "sec_filing"

-- `Upload`'s errors: the first two wrap `ErrUnsupportedFileType`; `pool_panic` is the panic of a send
-- on the closed queue.
pub data UploadError : Type 0 where
  unsupported_extension sec_filing_needs_text : UploadError
  read_failed too_large no_job_for_duplicate store_failed queue_is_full pool_panic : UploadError

-- filepath.Ext, from the back: the bytes from the last dot on, if no slash comes first.
ext_loop : Text → Text → Text
ext_loop [] seen = []
ext_loop (c ∷ rest) seen =
    let longer = ext_loop rest (c ∷ seen) in
    if c == b'/' then [] else if c == b'.' then c ∷ seen else longer

unfoldable pub ext : Text → Text
unfolding ext_loop
ext path = ext_loop (reverse path) []

abbrev pub extension_doc_type : Dict DocumentType
extension_doc_type =
    (lit ".pdf", pdf)
    ∷ (lit ".docx", docx)
    ∷ (lit ".html", html)
    ∷ (lit ".htm", html)
    ∷ (lit ".txt", txt)
    ∷ []

unfoldable pub doc_type_for_filename : Text → Result UploadError DocumentType
doc_type_for_filename filename = elim (get extension_doc_type (to_lower (ext filename))) [
  | none ↦ err unsupported_extension
  | some dt ↦ ok dt
]

abbrev pub is_text_type : DocumentType → Bool
is_text_type html = true
is_text_type txt = true
is_text_type _ = false

for_category : Text → Result UploadError DocumentType → Result UploadError DocumentType
for_category category (err e) = err e
for_category category (ok dt) =
    if text_eq category category_sec_filing
    then if is_text_type dt then ok sec_filing else err sec_filing_needs_text
    else ok dt

-- The first checks of `Upload`.
unfoldable pub upload_doc_type : Text → Text → Result UploadError DocumentType
unfolding for_category
upload_doc_type category filename = for_category category (doc_type_for_filename filename)
