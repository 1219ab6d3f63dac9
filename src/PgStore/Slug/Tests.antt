-- ===== src/PgStore/Slug/Tests.antt =====
-- Runs of slug.rs on the inputs of its own tests.
use qpedia.Prelude.{ℕ, ◌≡◌, refl, Bool, not, [], ◌∷◌, ◌++◌, Result, ok}
use qpedia.Text.{Text, codes, contains_text, decimal, trim, split, join}
use qpedia.PgStore.Slug.{
  slugify, slugify_folder, probe_unique, numbered, unique_source_slug, unique_connector_name,
  unique_wiki_path,
}
use qpedia.PgStore.Slug.Shape.{IsSlug, slugify-IsSlug}
use qpedia.PgStore.Slug.Probe.{IsFirstFree, unique_names-IsFirstFree}

slugify_tests :
    (slugify (codes "Q4 2026 / Forecast") ≡ codes "q4-2026-forecast")
    × (slugify (codes "  --leading and trailing--  ") ≡ codes "leading-and-trailing")
    × (slugify (codes "////") ≡ codes "untitled")
unfolding slugify
slugify_tests = (refl, refl, refl)

slugify_folder_tests :
    (slugify_folder (codes "/Finance/Q4 Reports/") ≡ codes "/finance/q4-reports")
    × (slugify_folder (codes "Finance/Q4") ≡ codes "/finance/q4")
    × (slugify_folder (codes "") ≡ codes "/")
    × (slugify_folder (codes "/") ≡ codes "/")
unfolding slugify_folder slugify trim split join
slugify_folder_tests = (refl, refl, refl, refl)

abbrev taken_names : ℕ → Text → Result (Unit {0}) Bool
taken_names n name = ok (not (contains_text (codes "report" ∷ codes "report-2" ∷ []) name))

probe_test : unique_source_slug taken_names (codes "Report!") ≡ ok (codes "report-3")
unfolding unique_source_slug contains_text probe_unique slugify numbered decimal
probe_test = refl

slugify-IsSlug_example : IsSlug (slugify (codes "Q4 2026 / Forecast"))
slugify-IsSlug_example = slugify-IsSlug (codes "Q4 2026 / Forecast")

unique_names_example :
    IsFirstFree taken_names
      (slugify (codes "Report!"))
      (unique_source_slug taken_names (codes "Report!"))
    × IsFirstFree taken_names
        (slugify (codes "Report!"))
        (unique_connector_name taken_names (codes "Report!"))
    × IsFirstFree taken_names
        (slugify (codes "Topics") ++ (b'/' ∷ (slugify (codes "Report!") ++ codes ".md")))
        (unique_wiki_path taken_names (codes "Topics") (codes "Report!"))
unique_names_example = unique_names-IsFirstFree taken_names (codes "Topics") (codes "Report!")
