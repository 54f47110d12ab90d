-- ===== src/Storage/Kept.antt =====
-- What has been stored stays readable (gateway-go/internal/storage/local.go, ml-service/app/storage.py).
use financial_ai_platform.Prelude.{
  ◌≡◌, ◌≢◌, refl, sym, ap, ◌∙◌, arith, Bool-cases, Option-cases, inl, inr, List, [], ◌∷◌, ◌++◌, All,
  some, Text, text_eq, text_eq_iff, get, put, get-put, get-put_self, ok, take,
}
use financial_ai_platform.Storage.Paths.{
  rooted, join, IsPlain, below, key_of, join-below, rooted-below-distinct,
}
use financial_ai_platform.Storage.Utf8.{IsUtf8}
use financial_ai_platform.Storage.Uris.{path_to_file_uri, pathname, pathname-path_to_file_uri}
use financial_ai_platform.Storage.{LocalObjectStore, Attempt, Files, put_object, read_object}

-- A call of Put for the object of a document.
pub record Storing : Type 0 where
  pub attempt : Attempt
  pub id : Text
  pub name : Text
  pub bytes : Text

put_object_ok :
    (s : LocalObjectStore) (a : Attempt) (files files' : Files) (key bytes uri : Text)
    → put_object s a files key bytes ≡ (files', ok uri)
    → (files' ≡ put files (join s.base_dir key) bytes)
      × (uri ≡ path_to_file_uri (join s.base_dir key))
unfolding put_object
put_object_ok s a files files' key bytes uri h = elim (Option-cases a.breaks_after) [
  | inl whole ↦ (ground arith, ground arith)
  | inr (n, broken) ↦ (absurd (ground arith), absurd (ground arith))
]

read_object_at :
    (files : Files) (uri path : Text)
    → pathname uri ≡ some path
    → read_object files uri ≡ get files path
unfolding read_object
read_object_at files uri path h = ground arith

module _ (d : Text) (dir : List Text) where
  abbrev pub store : LocalObjectStore
  store = record { base_dir = rooted (d ∷ dir) }

  unfoldable pub store_all : List Storing → Files → Files
  store_all [] files = files
  store_all (p ∷ ps) files =
      store_all ps (put_object store p.attempt files (key_of p.id p.name) p.bytes).0

  -- The objects of other documents, whose ids and names stand for themselves in a path.
  abbrev pub Others : Text → List Storing → Type 0
  Others id = All (λ p. (p.id ≢ id) × IsPlain p.id × IsPlain p.name)

  abbrev path_of : Text → Text → Text
  path_of id name = rooted (below (d ∷ dir) id name)

  module _ (plain : All IsPlain (d ∷ dir)) (id name : Text) (plain_id : IsPlain id)
      (plain_name : IsPlain name) where
    miss :
        (p : Storing) (files : Files) (contents : Text)
        → (p.id ≢ id) × IsPlain p.id × IsPlain p.name
        → get (put files (join store.base_dir (key_of p.id p.name)) contents) (path_of id name)
          ≡ get files (path_of id name)
    miss p files contents (unlike, plain_other, plain_file) =
        let path = join store.base_dir (key_of p.id p.name) in
        let joined = join-below d dir p.id p.name plain plain_other plain_file in
        get-put files path (path_of id name) contents
        ∙ elim (Bool-cases (text_eq path (path_of id name))) [
          | inl same ↦ absurd (
              unlike (
                rooted-below-distinct (d ∷ dir) p.id id p.name name plain plain_other plain_id
                  plain_file plain_name (sym joined ∙ (text_eq_iff path (path_of id name)).0 same)))
          | inr differs ↦ ground arith
        ]

    put_object-other :
        (p : Storing) (files : Files)
        → (p.id ≢ id) × IsPlain p.id × IsPlain p.name
        → get (put_object store p.attempt files (key_of p.id p.name) p.bytes).0 (path_of id name)
          ≡ get files (path_of id name)
    unfolding put_object
    put_object-other p files other = elim (Option-cases p.attempt.breaks_after) [
      | inl whole ↦ ground (arith, miss p files p.bytes other)
      | inr (n, broken) ↦ ground (arith, miss p files (take n p.bytes) other)
    ]

    store_all-Others :
        (later : List Storing) (files : Files)
        → Others id later
        → get (store_all later files) (path_of id name) ≡ get files (path_of id name)
    unfolding store_all
    store_all-Others [] files h = refl
    store_all-Others (p ∷ later) files (other, others) =
        store_all-Others later (put_object store p.attempt files (key_of p.id p.name) p.bytes).0
          others
        ∙ put_object-other p files other

    -- An object that Put has stored for a document is read back by the ML service, at the URI that Put
    -- returned, with the bytes that were put, whatever objects are stored later for other documents, and
    -- however these calls end. The directory, the ids and the file names are without slashes, and none is
    -- empty or made of dots; and the path is UTF-8.
    pub read_object-put_object :
        (a : Attempt) (files files' : Files) (bytes uri : Text) (later : List Storing)
        → IsUtf8 (rooted (below (d ∷ dir) id name))
        → put_object store a files (key_of id name) bytes ≡ (files', ok uri)
        → Others id later
        → read_object (store_all later files') uri ≡ some bytes
    unfolding rooted
    read_object-put_object a files files' bytes uri later is_utf8 stored others =
        let path = path_of id name in
        let joined = join-below d dir id name plain plain_id plain_name in
        let (written, named) =
          put_object_ok store a files files' (key_of id name) bytes uri stored in
        let read = pathname-path_to_file_uri (d ++ rooted (below dir id name)) is_utf8 in
        let located : pathname uri ≡ some path =
          ap pathname (named ∙ ap path_to_file_uri joined) ∙ read in
        read_object_at (store_all later files') uri path located
        ∙ store_all-Others later files' others
        ∙ ap (λ m. get m path) (written ∙ ap (λ p. put files p bytes) joined)
        ∙ get-put_self files path bytes
