-- ===== src/Store/Blob.antt =====
-- crates/qpedia-store/src/blob.rs: files below a folder for each source, which is
-- named by its slug for all tenants alike. Errors of the file system are
-- parameters of the code that calls it.
pub mod Written
use qpedia.Prelude.{
  Bool, true, false, ◌&&◌, Option, none, some, List, [], ◌∷◌, ◌++◌, ◌==◌, if◌then◌else◌, is_empty,
}
use qpedia.Text.{Text, codes, text_eq, split, trim_start_by}
use qpedia.Store.WikiRepo.{components}

pub data BlobKind : Type 0 where
  original extracted manifest : BlobKind

stem : BlobKind → Text
stem original = codes "original"
stem extracted = codes "extracted"
stem manifest = codes "manifest"

-- The name of a file in the folder of its source.
path_for : BlobKind → Text → Text
unfolding stem trim_start_by
path_for kind ext =
    stem kind ++ (if is_empty ext then [] else b'.' ∷ trim_start_by (λ c. c == b'.') ext)

-- Each file with the source of its folder and its name.
pub record Blob : Type 0 where
  pub id : Text
  pub name : Text
  pub bytes : Text

is_at : Text → Text → Blob → Bool
unfolding text_eq
is_at id name b = text_eq b.id id && text_eq b.name name

write : Text → Text → Text → List Blob → List Blob
unfolding is_at
write id name bytes [] = record { id = id; name = name; bytes = bytes } ∷ []
write id name bytes (b ∷ blobs) =
    let rest = write id name bytes blobs in
    if is_at id name b then record b { bytes = bytes } ∷ blobs else b ∷ rest

find : Text → Text → List Blob → Option Text
unfolding is_at
find id name [] = none
find id name (b ∷ blobs) =
    let rest = find id name blobs in if is_at id name b then some b.bytes else rest

unfoldable pub put : Text → BlobKind → Text → Text → List Blob → List Blob
unfolding path_for write
put id kind ext = write id (path_for kind ext)

unfoldable pub get : Text → BlobKind → Text → List Blob → Option Text
unfolding path_for find
get id kind ext = find id (path_for kind ext)

unfoldable pub delete_all : Text → List Blob → List Blob
unfolding text_eq
delete_all id [] = []
delete_all id (b ∷ blobs) =
    let rest = delete_all id blobs in if text_eq b.id id then rest else b ∷ rest

-- `rfind('.')`, with what stands before and after it.
rsplit_dot : Text → Option (Text × Text)
rsplit_dot [] = none
rsplit_dot (c ∷ s) = elim (rsplit_dot s) [
  | some (before, after) ↦ some (c ∷ before, after)
  | none ↦ if c == b'.' then some ([], s) else none
]

last_name : List Text → Option Text
last_name [] = none
last_name (s ∷ []) = some s
last_name (s ∷ t ∷ more) = last_name (t ∷ more)

-- `Path::new(path).extension()`
unfoldable pub extension : Text → Option Text
unfolding rsplit_dot last_name components split text_eq
extension path = elim (last_name (components (split b'/' path))) [
  | none ↦ none
  | some name ↦ if text_eq name (codes "..") then none else elim (rsplit_dot name) [
    | none ↦ none
    | some (before, after) ↦ if is_empty before then none else some after
  ]
]
