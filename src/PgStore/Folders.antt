-- ===== src/PgStore/Folders.antt =====
-- crates/qpedia-pg-store/src/folders.rs: the rows of one tenant, with those of its sources. The order of listings, which is the database's, is left out.
pub mod Within
use qpedia.Prelude.{
  ℕ, zero, suc, ◌+◌, Bool, true, false, ◌||◌, Option, none, some, List, [], ◌∷◌, ◌++◌, ◌==◌, ltb,
  if◌then◌else◌, is_empty, Result, ok, err,
}
use qpedia.Text.{Text, codes, text_eq, starts_with, trim, trim_end_by}
use qpedia.Core.Source.{Source}
use qpedia.PgStore.Slug.{slugify_folder}

pub record FolderRow : Type 0 where
  pub path : Text
  pub pinned : Bool
  pub created_by : Text

pub record Tree : Type 0 where
  pub folders : List FolderRow
  pub sources : List Source

-- `INSERT … ON CONFLICT (tenant_id, path) DO UPDATE SET pinned = EXCLUDED.pinned`
put_folder : Text → Bool → Text → List FolderRow → List FolderRow
unfolding text_eq
put_folder path pinned by [] = record { path = path; pinned = pinned; created_by = by } ∷ []
put_folder path pinned by (r ∷ rows) =
    let rest = put_folder path pinned by rows in
    if text_eq r.path path then record r { pinned = pinned } ∷ rows else r ∷ rest

unfoldable pub create_folder : Text → Bool → Text → Tree → Tree × Text
unfolding put_folder
create_folder path pinned created_by t = (
  record t { folders = put_folder (slugify_folder path) pinned created_by t.folders },
  slugify_folder path,
)

unfoldable pub set_folder_pinned : Text → Bool → Text → Tree → Tree
unfolding put_folder
set_folder_pinned path pinned actor t = record t {
  folders = put_folder (slugify_folder path) pinned actor t.folders;
}

pinned_at : Text → List FolderRow → Bool
unfolding text_eq
pinned_at path [] = false
pinned_at path (r ∷ rows) =
    let rest = pinned_at path rows in if text_eq r.path path then r.pinned else rest

unfoldable pub is_folder_pinned : Text → Tree → Bool
unfolding pinned_at
is_folder_pinned path t = pinned_at (slugify_folder path) t.folders

-- `folder_path = $1 OR folder_path LIKE $2`: a slug has no wildcard in it, so that the pattern asks for a
-- prefix.
pub is_within : Text → Text → Bool
unfolding text_eq starts_with trim_end_by
is_within path folder_path =
    text_eq folder_path path
    || starts_with (trim_end_by (λ c. c == b'/') path ++ codes "/") folder_path

pub count_within : Text → List Source → ℕ
unfolding is_within
count_within path [] = 0
count_within path (r ∷ sources) =
    (if is_within path r.folder_path then 1 else 0) + count_within path sources

unfoldable pub folder_source_count : Text → Tree → ℕ
unfolding count_within
folder_source_count path t = count_within (slugify_folder path) t.sources

without_folder : Text → List FolderRow → List FolderRow
unfolding text_eq
without_folder path [] = []
without_folder path (r ∷ rows) =
    let rest = without_folder path rows in if text_eq r.path path then rest else r ∷ rest

unfoldable pub delete_folder : Text → Tree → Tree
unfolding without_folder
delete_folder path t = record t { folders = without_folder (slugify_folder path) t.folders }

-- The explicit rows and those of sources, grouped by path, without the root.
add_node : Text → Bool → List (Text × Bool) → List (Text × Bool)
unfolding text_eq
add_node path pinned [] = (path, pinned) ∷ []
add_node path pinned ((p, b) ∷ nodes) =
    let rest = add_node path pinned nodes in
    if text_eq p path then (p, b || pinned) ∷ nodes else (p, b) ∷ rest

add_unless_root : Text → Bool → List (Text × Bool) → List (Text × Bool)
unfolding add_node text_eq
add_unless_root path pinned nodes =
    if text_eq path (codes "/") then nodes else add_node path pinned nodes

folder_nodes : List FolderRow → List (Text × Bool) → List (Text × Bool)
unfolding add_unless_root
folder_nodes [] nodes = nodes
folder_nodes (r ∷ rows) nodes = add_unless_root r.path r.pinned (folder_nodes rows nodes)

source_nodes : List Source → List (Text × Bool)
unfolding add_unless_root
source_nodes [] = []
source_nodes (r ∷ rows) = add_unless_root r.folder_path false (source_nodes rows)

unfoldable pub list_folders : Tree → List (Text × Bool)
unfolding folder_nodes source_nodes
list_folders t = folder_nodes t.folders (source_nodes t.sources)
