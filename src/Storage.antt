-- ===== src/Storage.antt =====
-- The object store of a directory, gateway-go/internal/storage/local.go, and the reader of the ML service,
-- ml-service/app/storage.py, on Unix. Paths are texts; of the files the contents are kept, and whether a
-- directory or a file can be made is drawn for each call.
pub mod Paths
pub mod Utf8
pub mod Uris
pub mod Kept
pub mod Uploads
mod Tests
use financial_ai_platform.Prelude.{
  ℕ, Bool, Option, none, some, Text, if◌then◌else◌, take, Dict, get, put, Result, ok, err, ◌>>=◌,
  ◌>>◌, fail_if,
}
use financial_ai_platform.Storage.Paths.{join}
use financial_ai_platform.Storage.Uris.{path_to_file_uri, pathname}

pub data StorageError : Type 0 where
  no_base_dir no_absolute_path : StorageError
  no_parent_dir no_file write_failed : StorageError

pub record LocalObjectStore : Type 0 where
  pub base_dir : Text

-- Whether the directory can be made, and filepath.Abs, are parameters.
unfoldable pub new_local_object_store :
    (Text → Bool) → (Text → Option Text) → Text → Result StorageError LocalObjectStore
new_local_object_store makes abs base_dir =
    if makes base_dir
    then elim (abs base_dir) [
      | none ↦ err no_absolute_path
      | some dir ↦ ok (record { base_dir = dir })
    ]
    else err no_base_dir

-- What the system answers to a call: whether MkdirAll and Create fail, and after how many bytes a write
-- does, if one does.
pub record Attempt : Type 0 where
  pub parent_fails : Bool
  pub create_fails : Bool
  pub breaks_after : Option ℕ

-- The files by their paths; os.Create empties one that is there.
abbrev pub Files : Type 0
Files = Dict Text

unfoldable pub put_object :
    LocalObjectStore → Attempt → Files → Text → Text → Files × Result StorageError Text
put_object s a files key bytes =
    let path = join s.base_dir key in
    if a.parent_fails
    then (files, err no_parent_dir)
    else if a.create_fails
    then (files, err no_file)
    else elim a.breaks_after [
      | none ↦ (put files path bytes, ok (path_to_file_uri path))
      | some n ↦ (put files path (take n bytes), err write_failed)
    ]

-- LocalFileObjectReader.read: the bytes of the file, if there is one.
unfoldable pub read_object : Files → Text → Option Text
read_object files uri = elim (pathname uri) [ none ↦ none | some path ↦ get files path ]
