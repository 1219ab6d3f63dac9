-- ===== src/PgStore/FolderAcls/Tests.antt =====
-- The access lists of folders at concrete inputs.
use qpedia.Prelude.{◌≡◌, refl, none, some, List, [], ◌∷◌, All}
use qpedia.Text.{Text, codes, trim, split, join}
use qpedia.Core.Acl.{Acl}
use qpedia.PgStore.Slug.{slugify_folder}
use qpedia.PgStore.Slug.Shape.{IsSlug}
use qpedia.PgStore.FolderAcls.{resolve_folder_acl}
use qpedia.PgStore.FolderAcls.Names.{path_of}
use qpedia.PgStore.FolderAcls.Closest.{
  Event, set, remove, run, view, closest, resolve_folder_acl-closest,
}

abbrev staff : Acl
staff = record { groups = codes "staff" ∷ [] }

abbrev board : Acl
board = record { groups = codes "board" ∷ [] }

abbrev events : List Event
events =
    set (codes "/") staff 1 (codes "ann")
    ∷ set (codes "/Finance/") board 2 (codes "ann")
    ∷ set (codes "/finance/q4") staff 3 (codes "bob")
    ∷ remove (codes "/finance/Q4/")
    ∷ []

resolve_tests :
    (resolve_folder_acl (codes "/finance/q4/drafts") (run events []) ≡ some board)
    × (resolve_folder_acl (codes "/finances") (run events []) ≡ some staff)
    × (resolve_folder_acl (codes "/finance") [] ≡ none)
unfolding resolve_folder_acl run trim split join
resolve_tests = (refl, refl, refl)

resolve_folder_acl-closest_example :
    (names : List Text) × All IsSlug names
    × (slugify_folder (codes "/finance/q4/drafts") ≡ path_of names)
    × (resolve_folder_acl (codes "/finance/q4/drafts") (run events [])
        ≡ closest (view events (λ q. none)) names)
resolve_folder_acl-closest_example = resolve_folder_acl-closest events (codes "/finance/q4/drafts")
