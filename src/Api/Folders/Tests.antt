-- ===== src/Api/Folders/Tests.antt =====
-- The folders at concrete inputs.
use qpedia.Prelude.{
  ◌≡◌, refl, subst, true, false, none, List, [], ◌∷◌, ltb, if◌then◌else◌, err, ok, All,
}
use qpedia.Text.{Text, codes, trim, split, join}
use qpedia.Core.Source.{Source, pending}
use qpedia.PgStore.Slug.{slugify, slugify_folder, folder_of}
use qpedia.PgStore.Slug.Shape.{IsSlug, slugify-IsSlug}
use qpedia.PgStore.Folders
use qpedia.PgStore.Folders.{Tree, folder_source_count, list_folders, is_folder_pinned}
use qpedia.PgStore.Folders.Within.{LieIn, count_prefix}
use qpedia.Api.Folders.{create_folder, patch_folder, delete_folder, not_empty, path_required}
use qpedia.Api.Folders.Delete.{delete_folder-count_prefix}

abbrev source_at : Text → Text → Source
source_at slug path = record {
  id = slug;
  tenant = codes "t";
  folder_path = path;
  filename = codes "a.pdf";
  mime = codes "application/pdf";
  sha256 = codes "00";
  size_bytes = 1;
  acl = record { groups = [] };
  status = pending;
  language = none;
  created_at = 0;
  ingested_at = none;
  classification = none;
}

abbrev tree : Tree
tree = record {
  folders = record { path = codes "/finance"; pinned = true; created_by = codes "ann" } ∷ [];
  sources =
      source_at (codes "q4") (codes "/finance/q4-reports")
      ∷ source_at (codes "hr") (codes "/finances")
      ∷ [];
}

abbrev folders : List (List Text)
folders = (codes "finance" ∷ codes "q4-reports" ∷ []) ∷ (codes "finances" ∷ []) ∷ []

IsSlug-of : (name : Text) → slugify name ≡ name → IsSlug name
IsSlug-of name e = subst IsSlug e (slugify-IsSlug name)

lies_in : LieIn tree.sources folders
unfolding LieIn folder_of join slugify
lies_in = (
  refl,
  (IsSlug-of (codes "finance") refl, (IsSlug-of (codes "q4-reports") refl, tt)),
  (refl, (IsSlug-of (codes "finances") refl, tt), tt),
)

counts :
    (folder_source_count (codes "/Finance/") tree ≡ 1)
    × (folder_source_count (codes "/") tree ≡ 2)
    × (list_folders tree
        ≡ (codes "/finances", false)
          ∷ (codes "/finance/q4-reports", false)
          ∷ (codes "/finance", true)
          ∷ [])
    × (is_folder_pinned
          (codes "/finance")
          (patch_folder (codes "/Finance") false (codes "bob") tree)
        ≡ false)
unfolding folder_source_count list_folders is_folder_pinned patch_folder slugify_folder trim split
    join
counts = (refl, refl, refl, refl)

refuses : create_folder (codes " / ") true (codes "ann") tree ≡ err path_required
unfolding create_folder
refuses = refl

delete_folder-count_prefix_example :
    (names : List Text) × All IsSlug names
    × (slugify_folder (codes "/Finance/") ≡ folder_of names)
    × (delete_folder (codes "/Finance/") tree ≡ (
        if ltb 0 (count_prefix names folders)
        then err (not_empty (count_prefix names folders))
        else ok (Folders.delete_folder (codes "/Finance/") tree)))
delete_folder-count_prefix_example =
    delete_folder-count_prefix (codes "/Finance/") tree folders lies_in
