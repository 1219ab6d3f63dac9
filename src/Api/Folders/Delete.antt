-- ===== src/Api/Folders/Delete.antt =====
-- What the handler that deletes a folder asks before it does.
use qpedia.Prelude.{◌≡◌, List, All, All-map, ltb, if◌then◌else◌, err, ok}
use qpedia.Text.{Text}
use qpedia.PgStore.Slug.{slugify_folder, folder_of}
use qpedia.PgStore.Slug.Shape.{IsSlug}
use qpedia.PgStore.Slug.Folder.{slugify_folder-IsFolder}
use qpedia.PgStore.FolderAcls.Names.{IsSlug-IsName}
use qpedia.PgStore.Folders
use qpedia.PgStore.Folders.{Tree}
use qpedia.PgStore.Folders.Within.{LieIn, count_prefix, count_within-count_prefix}
use qpedia.Api.Folders.{not_empty, delete_folder}

-- If the sources lie in folders whose paths are in normal form, a folder is deleted exactly if no source
-- lies in it or in a folder below it, as the names in their paths say, and else the error has the
-- number of those that do.
pub delete_folder-count_prefix :
    (path : Text) (t : Tree) (folders : List (List Text))
    → LieIn t.sources folders
    → (names : List Text) × All IsSlug names
      × (slugify_folder path ≡ folder_of names)
      × (delete_folder path t ≡ (
          if ltb 0 (count_prefix names folders)
          then err (not_empty (count_prefix names folders))
          else ok (Folders.delete_folder path t)))
unfolding delete_folder
delete_folder-count_prefix path t folders h =
    let (names, slugs, same) = slugify_folder-IsFolder path in
    (
      names,
      slugs,
      same,
      rw (
        same,
        count_within-count_prefix names t.sources folders
            (All-map (λ s w. IsSlug-IsName s w) names slugs) h,
      ),
    )
