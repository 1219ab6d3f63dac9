-- ===== src/Store/WikiRepo/Tests.antt =====
-- The wiki's repository at concrete inputs.
use qpedia.Prelude.{◌≡◌, refl, false, none, some, [], ◌∷◌, ok, err}
use qpedia.Text.{codes}
use qpedia.Core.Wiki.{create, delete, link, DiffBundle}
use qpedia.Store.WikiRepo.{
  Faults, Repo, safe_join, path_traversal, under_git, commit_bundle, read_page,
}
use qpedia.Store.WikiRepo.SafeJoin.{IsInside, safe_join-IsInside}
use qpedia.Store.WikiRepo.Commit.{IsOutcome, commit_bundle_lem}

abbrev wiki : Repo
wiki = record {
  tree = (codes "log.md" ∷ [], codes "# Log") ∷ [];
  head = (codes "log.md" ∷ [], codes "# Log") ∷ [];
  log = codes "seed" ∷ [];
}

abbrev no_faults : Faults
no_faults = record { write_fails = λ p. false; git_fails = λ c. false }

abbrev bundle : DiffBundle
bundle = record {
  ingest_id = codes "7";
  operations =
      create (codes "/topics/./a.md") (codes "text") (codes "new")
      ∷ delete (codes "log.md") (codes "old")
      ∷ link (codes "a.md") (codes "b.md") (codes "see")
      ∷ [];
  summary = [];
}

safe_join_tests :
    (safe_join (codes "/topics/./a.md") ≡ ok (codes "topics" ∷ codes "a.md" ∷ []))
    × (safe_join (codes "a/../b.md") ≡ err path_traversal)
    × (safe_join (codes ".git/config") ≡ err under_git)
unfolding safe_join
safe_join_tests = (refl, refl, refl)

commit_test :
    ((commit_bundle no_faults bundle wiki).1 ≡ ok 2)
    × (read_page (commit_bundle no_faults bundle wiki).0 (codes "topics/a.md")
        ≡ ok (some (codes "text")))
    × (read_page (commit_bundle no_faults bundle wiki).0 (codes "log.md") ≡ ok none)
unfolding commit_bundle read_page
commit_test = (refl, refl, refl)

commit_bundle_example : IsOutcome bundle wiki (commit_bundle no_faults bundle wiki)
commit_bundle_example = commit_bundle_lem no_faults bundle wiki

safe_join-IsInside_example : IsInside (codes "topics" ∷ codes "a.md" ∷ [])
safe_join-IsInside_example =
    safe_join-IsInside (codes "/topics/./a.md") (codes "topics" ∷ codes "a.md" ∷ [])
      safe_join_tests.0
