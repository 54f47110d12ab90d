-- ===== src/Ingestion/DocType/Extensions.antt =====
-- The extension of a name is what follows its last dot (gateway-go/internal/ingestion/doctype.go).
use financial_ai_platform.Prelude.{
  ◌≡◌, ◌≢◌, refl, ap, ◌∙◌, none, some, [], ◌∷◌, ◌++◌, arith, All, if◌then◌else◌, Text, to_lower,
  text_eq, get, ok, err, Result,
}
use mathlib.Core.List.{
  reverse, reverse_aux, reverse-reverse, reverse-append, reverse-cons, append_assoc,
}
use financial_ai_platform.Ingestion.DocType.{
  DocumentType, UploadError, is_text_type, sec_filing, category_sec_filing, unsupported_extension,
  sec_filing_needs_text, ext_loop, ext, doc_type_for_filename, upload_doc_type, extension_doc_type,
}

-- Neither a dot nor a slash.
abbrev pub IsPlain : Text → Type 0
IsPlain = All (λ c. (c ≢ b'.') × (c ≢ b'/'))

ext_loop-plain :
    (back rest seen : Text)
    → IsPlain back
    → ext_loop (back ++ rest) seen ≡ ext_loop rest (reverse_aux back seen)
unfolding ext_loop
ext_loop-plain [] rest seen p = refl
ext_loop-plain (c ∷ back) rest seen p = ground (arith, ext_loop-plain back rest (c ∷ seen) p.1)

IsPlain-reverse_aux : (xs ys : Text) → IsPlain xs → IsPlain ys → IsPlain (reverse_aux xs ys)
IsPlain-reverse_aux [] ys p q = q
IsPlain-reverse_aux (x ∷ xs) ys p q = IsPlain-reverse_aux xs (x ∷ ys) p.1 (p.0, q)

reverse-dot :
    (stem suffix : Text)
    → reverse (stem ++ (b'.' ∷ suffix)) ≡ reverse suffix ++ (b'.' ∷ reverse stem)
reverse-dot stem suffix =
    reverse-append stem (b'.' ∷ suffix)
    ∙ ap (λ l. l ++ reverse stem) (reverse-cons b'.' suffix)
    ∙ append_assoc (reverse suffix) (b'.' ∷ []) (reverse stem)

-- The extension of `stem.suffix` is `.suffix`, whatever the stem.
pub ext-dot : (stem suffix : Text) → IsPlain suffix → ext (stem ++ (b'.' ∷ suffix)) ≡ b'.' ∷ suffix
unfolding ext
ext-dot stem suffix p =
    ap (λ l. ext_loop l []) (reverse-dot stem suffix)
    ∙ ext_loop-plain (reverse suffix) (b'.' ∷ reverse stem) [] (IsPlain-reverse_aux suffix [] p tt)
    ∙ ap (◌∷◌ b'.') (reverse-reverse suffix)

doc_type-ext :
    (filename e : Text)
    → ext filename ≡ e
    → doc_type_for_filename filename ≡ elim (get extension_doc_type (to_lower e)) [
      | none ↦ err unsupported_extension
      | some dt ↦ ok dt
    ]
unfolding doc_type_for_filename
doc_type-ext filename e h = ap (λ x. typed x) h
  where
    typed : Text → Result UploadError DocumentType
    typed x = elim (get extension_doc_type (to_lower x)) [
      | none ↦ err unsupported_extension
      | some dt ↦ ok dt
    ]

-- The type that `Upload` gives to `stem.suffix` depends on the suffix alone, up to case: it is
-- the table's, and for the category "sec_filing" it is SEC_FILING if the table says HTML or TXT, and
-- an error otherwise. A suffix that is not in the table is an error in every category.
pub upload_doc_type-dot :
    (category stem suffix : Text)
    → IsPlain suffix
    → upload_doc_type category (stem ++ (b'.' ∷ suffix))
      ≡ elim (get extension_doc_type (to_lower (b'.' ∷ suffix))) [
        | none ↦ err unsupported_extension
        | some dt ↦
            if text_eq category category_sec_filing
            then if is_text_type dt then ok sec_filing else err sec_filing_needs_text
            else ok dt
      ]
unfolding upload_doc_type
upload_doc_type-dot category stem suffix p =
    let typed = doc_type-ext (stem ++ (b'.' ∷ suffix)) (b'.' ∷ suffix) (ext-dot stem suffix p) in
    ground (arith, typed)
