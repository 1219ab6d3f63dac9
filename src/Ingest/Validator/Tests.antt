-- ===== src/Ingest/Validator/Tests.antt =====
-- The validator at concrete inputs.
use qpedia.Prelude.{◌≡◌, ◌≢◌, refl, [], ◌∷◌, All}
use qpedia.Text.{Text, codes}
use qpedia.Core.Wiki.{create, DiffBundle}
use qpedia.Store.WikiRepo.Checks.{ops_bytes}
use qpedia.Ingest.Validator.{extract_wikilinks, validate, missing_kind, unresolved_link}
use qpedia.Ingest.Validator.Meaning.{IsSoundOp, validate-IsSound}

abbrev bundle : DiffBundle
bundle = record {
  ingest_id = codes "7";
  operations =
      create (codes "a.md")
        (codes "---\ntitle: A\nkind: topic\n---\nsee [[ b.md#top ]] and [[a.md]]") []
      ∷ [];
  summary = [];
}

abbrev bad_bundle : DiffBundle
bad_bundle = record bundle {
  operations = create (codes "a.md") (codes "---\ntitle: A\n---\n[[c.md]]") [] ∷ [];
}

validate_tests :
    ((validate bundle (codes "b.md" ∷ [])).errors ≡ [])
    × ((validate bad_bundle (codes "b.md" ∷ [])).errors
        ≡ missing_kind (codes "a.md") ∷ unresolved_link (codes "a.md") (codes "c.md") ∷ [])
unfolding validate
validate_tests = (refl, refl)

validate-IsSound_example :
    (bundle.operations ≢ [])
    × All (IsSoundOp bundle.operations (codes "b.md" ∷ [])) bundle.operations
    × ((validate bundle (codes "b.md" ∷ [])).bytes ≡ ops_bytes bundle.operations)
validate-IsSound_example = validate-IsSound bundle (codes "b.md" ∷ []) validate_tests.0

-- A link in code is a link too, and one that is not closed is none.
abbrev linked_page : Text
linked_page = codes "see [[ a.md ]] and `[[b.md#top]]`, not [[c.md"

linked_page_test : extract_wikilinks linked_page ≡ codes "a.md" ∷ codes "b.md#top" ∷ []
unfolding extract_wikilinks
linked_page_test = refl
