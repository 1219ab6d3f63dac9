-- ===== src/Api/Folders.antt =====
-- crates/qpedia-api/src/routes.rs: the handlers of folders. Queries that fail and the audit log are left out.
pub mod Delete
pub mod Tests
use qpedia.Prelude.{
  ℕ, Bool, true, false, ◌||◌, Option, none, some, ltb, if◌then◌else◌, is_empty, Result, ok, err,
}
use qpedia.Text.{Text, codes, text_eq, trim}
use qpedia.PgStore.Slug.{slugify_folder}
use qpedia.PgStore.Folders
use qpedia.PgStore.Folders.{Tree}

pub data FolderError : Type 0 where
  path_required : FolderError
  not_empty : ℕ → FolderError

unfoldable pub create_folder : Text → Bool → Text → Tree → Result FolderError (Tree × Text)
unfolding trim text_eq
create_folder path pinned user t =
    if is_empty (trim path) || text_eq (trim path) (codes "/")
    then err path_required
    else ok (Folders.create_folder path pinned user t)

unfoldable pub patch_folder : Text → Bool → Text → Tree → Tree
unfolding Folders.set_folder_pinned
patch_folder path pinned user t = Folders.set_folder_pinned path pinned user t

unfoldable pub delete_folder : Text → Tree → Result FolderError Tree
unfolding Folders.folder_source_count Folders.delete_folder
delete_folder path t =
    if ltb 0 (Folders.folder_source_count path t)
    then err (not_empty (Folders.folder_source_count path t))
    else ok (Folders.delete_folder path t)
