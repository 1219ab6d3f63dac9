-- ===== src/Lint/Tests.antt =====
-- A wiki of four pages with one issue of each kind.
use qpedia.Prelude.{◌≡◌, refl, none, some, [], ◌∷◌, ok}
use qpedia.Text.{codes, text_eq}
use qpedia.Store.WikiRepo.{FileTree, Repo}
use qpedia.Lint.{LintEnv, LintReport, run, issue_count}
use qpedia.Lint.Exact.{IsExact, run-IsExact}

abbrev tree : FileTree
tree =
    (codes "index.md" ∷ [], codes "- [[a.md]]\n- [[gone.md]]\n")
    ∷ (
      codes "a.md" ∷ [],
      codes "---\nsource_ids: [q4, q9]\n---\nsee [[a.md#top]] and [[x.md]], not `[[y.md]]`\n",
    )
    ∷ (codes "b.md" ∷ [], codes "# B\n")
    ∷ (codes "log.md" ∷ [], codes "# Log\n")
    ∷ []

abbrev repo : Repo
repo = record { tree = tree; head = tree; log = [] }

abbrev env : LintEnv
env = record {
  exists = λ sid. some (text_eq sid (codes "q4"));
  near_duplicates = some (
      record { a = codes "a.md"; b = codes "b.md"; certainty = 94 }
      ∷ record { a = codes "index.md"; b = codes "b.md"; certainty = 99 }
      ∷ record { a = codes "b.md"; b = codes "c.md"; certainty = 97 }
      ∷ []);
  detect_contradictions = none;
}

abbrev report : LintReport
report = record {
  page_count = 4;
  orphans = codes "b.md" ∷ [];
  broken_links =
      record { page = codes "a.md"; target = codes "x.md" }
      ∷ record { page = codes "index.md"; target = codes "gone.md" }
      ∷ [];
  index_drift = record {
    missing_from_index = codes "b.md" ∷ [];
    stale_in_index = codes "gone.md" ∷ [];
  };
  stale_source_ids = codes "q9" ∷ [];
  duplicates =
      record { a = codes "b.md"; b = codes "c.md"; certainty = 97 }
      ∷ record { a = codes "a.md"; b = codes "b.md"; certainty = 94 }
      ∷ [];
  contradictions = [];
}

reports : run env repo ≡ ok report
unfolding run text_eq
reports = refl

issues : issue_count report ≡ 8
unfolding issue_count
issues = refl

run-IsExact_example : IsExact env repo report
run-IsExact_example = run-IsExact env repo report reports
