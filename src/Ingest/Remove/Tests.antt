-- ===== src/Ingest/Remove/Tests.antt =====
-- A wiki of three pages, an index and a log, from which a source is removed.
use qpedia.Prelude.{
  ℕ, zero, suc, ◌+◌, ◌*◌, ◌<◌, ◌≡◌, ◌≢◌, refl, sym, subst, ◌∙◌, true, false, [], ◌∷◌, ◌++◌, none,
  some, ok, err, arith, filter, not, All,
}
use qpedia.Text.{Text, codes, contains_text, byte_len, trim_end, lines, join}
use qpedia.Store.WikiRepo.{FilePath, FileTree, read_file, read_page, safe_join, max_page_bytes}
use qpedia.Ingest.Frontmatter.{extract_source_ids}
use qpedia.Ingest.Frontmatter.Quoting.{IsPlain}
use qpedia.Ingest.Remove.{
  RemoveEnv, RemoveState, row_failed, run, is_system_path, remove_wikilinks_from_index,
}
use qpedia.Store.WikiRepo.Pages.{is_page, rel_path}
use qpedia.Ingest.Remove.Settled.{IsWikiPage}
use qpedia.Ingest.Remove.Removed.{IsRemoved, run-IsRemoved}
use qpedia.Ingest.Remove.Forgets.{run-forgets}
use qpedia.Ingest.Remove.Errors.{IsKept, run-IsKept}
use qpedia.Ingest.Remove.FullLog.{run-full_log}
use qpedia.Ingest.Remove.Index.{has_dead, remove_wikilinks_from_index-extract_wikilinks}

abbrev dead_page : Text
dead_page = codes "---\ntitle: A\nsource_ids: [q4]\n---\n# A\n"

abbrev shared_page : Text
shared_page = codes "---\ntitle: B\nsource_ids: [\"q4\", \"q3\"]\n---\n# B\n"

abbrev other_page : Text
other_page = codes "---\ntitle: C\nsource_ids: [\"q3\"]\n---\n# C\n"

abbrev index_page : Text
index_page = codes "# Index\n- [[notes/a.md]]\n- [[b.md#top]]\n"

abbrev tree : FileTree
tree =
    (codes "notes" ∷ codes "a.md" ∷ [], dead_page)
    ∷ (codes "b.md" ∷ [], shared_page)
    ∷ (codes "c.md" ∷ [], other_page)
    ∷ (codes "index.md" ∷ [], index_page)
    ∷ (codes "log.md" ∷ [], codes "# Log\n")
    ∷ []

abbrev env : RemoveEnv
env = record {
  timestamp = codes "now";
  faults = record { write_fails = λ p. false; git_fails = λ c. false };
  source_fails = false;
  wiki_fails = false;
  blob_fails = false;
  row_fails = false;
  page_row_fails = λ p. false;
  reembed = λ r rows. rows;
}

abbrev st : RemoveState
st = record {
  repo = record { tree = tree; head = tree; log = [] };
  sources = codes "q3" ∷ codes "q4" ∷ [];
  blobs = codes "q4" ∷ [];
  wiki_pages = codes "notes/a.md" ∷ codes "b.md" ∷ [];
}

abbrev after : RemoveState
after = (run env (codes "q4") st).0

pages_after :
    (read_file (codes "notes" ∷ codes "a.md" ∷ []) after.repo.tree ≡ none)
    × (read_file (codes "b.md" ∷ []) after.repo.tree
        ≡ some (codes "---\ntitle: B\nsource_ids: [\"q3\"]\n---\n# B\n"))
    × (read_file (codes "index.md" ∷ []) after.repo.tree ≡ some (codes "# Index\n- [[b.md#top]]\n"))
unfolding run read_file
pages_after = (refl, refl, refl)

rows_after :
    (after.sources ≡ codes "q3" ∷ []) × (after.blobs ≡ []) × (after.wiki_pages ≡ codes "b.md" ∷ [])
unfolding run
rows_after = (refl, refl, refl)

succeeds : run env (codes "q4") st ≡ (after, ok tt)
unfolding run
succeeds = refl

has_row : contains_text st.sources (codes "q4") ≡ true
unfolding contains_text
has_row = refl

run-IsRemoved_example : IsRemoved env (codes "q4") st after
run-IsRemoved_example = run-IsRemoved env (codes "q4") st after has_row succeeds

q3-IsPlain : IsPlain (codes "q3")
q3-IsPlain = record {
  some_text = refl;
  no_comma = omega arith;
  no_quote = omega arith;
  no_apostrophe = omega arith;
  no_newline = omega arith;
}

q4-IsPlain : IsPlain (codes "q4")
q4-IsPlain = record {
  some_text = refl;
  no_comma = omega arith;
  no_quote = omega arith;
  no_apostrophe = omega arith;
  no_newline = omega arith;
}

abbrev b_path : FilePath
b_path = codes "b.md" ∷ []

b_before : read_file b_path st.repo.tree ≡ some shared_page
unfolding read_file
b_before = refl

ids_of_b : extract_source_ids shared_page ≡ codes "q4" ∷ codes "q3" ∷ []
unfolding extract_source_ids
ids_of_b = refl

b-IsPlain : (c : Text) → read_file b_path st.repo.tree ≡ some c → All IsPlain (extract_source_ids c)
b-IsPlain c h =
    let same : shared_page ≡ c = cc (sym b_before ∙ h) in
    subst (λ x. All IsPlain (extract_source_ids x)) same
      (subst (λ x. All IsPlain x) (sym ids_of_b) (q4-IsPlain, (q3-IsPlain, tt)))

b-IsWikiPage : IsWikiPage b_path
unfolding is_page safe_join rel_path is_system_path
b-IsWikiPage = record { walked = refl; named = refl; other = refl }

b_after :
    read_file b_path after.repo.tree
    ≡ some (codes "---\ntitle: B\nsource_ids: [\"q3\"]\n---\n# B\n")
unfolding run read_file
b_after = refl

run-forgets_example :
    contains_text
      (extract_source_ids (codes "---\ntitle: B\nsource_ids: [\"q3\"]\n---\n# B\n"))
      (codes "q4")
    ≡ false
run-forgets_example =
    run-forgets (codes "q4") env st after b_path
      (codes "---\ntitle: B\nsource_ids: [\"q3\"]\n---\n# B\n") has_row b-IsPlain succeeds
      b-IsWikiPage b_after

abbrev failing : RemoveEnv
failing = record env { row_fails = true }

fails : run failing (codes "q4") st ≡ ((run failing (codes "q4") st).0, err row_failed)
unfolding run
fails = refl

run-IsKept_example : IsKept failing (codes "q4") st (run failing (codes "q4") st).0 row_failed
run-IsKept_example =
    run-IsKept failing (codes "q4") st (run failing (codes "q4") st).0 row_failed fails

remove_wikilinks_from_index_example :
    remove_wikilinks_from_index index_page (codes "notes/a.md" ∷ [])
    ≡ join
        (codes "\n")
        (filter (λ line. not (has_dead (codes "notes/a.md" ∷ []) line)) (lines index_page))
      ++ codes "\n"
remove_wikilinks_from_index_example =
    remove_wikilinks_from_index-extract_wikilinks index_page (codes "notes/a.md" ∷ [])

-- A log of 51200 bytes.
signs : ℕ → Text
signs zero = []
signs (suc n) = 128512 ∷ signs n

signs_full : (n : ℕ) → (trim_end (signs n) ≡ signs n) × (byte_len (signs n) ≡ 4 * n)
unfolding trim_end byte_len signs
signs_full zero = (refl, refl)
signs_full (suc n) = let (h, k) = signs_full n in (ground arith, omega arith)

abbrev full : RemoveState
full = record st { repo = record st.repo { tree = (codes "log.md" ∷ [], signs 12800) ∷ [] } }

log_is_full : max_page_bytes < byte_len (trim_end (signs 12800)) + 37
log_is_full = let (h, k) = signs_full 12800 in rw h (omega arith)

log_is_there : read_page full.repo (codes "log.md") ≡ ok (some (signs 12800))
unfolding read_page
log_is_there = refl

run-full_log_example : run env (codes "q4") full ≢ (full, ok tt)
run-full_log_example =
    run-full_log env (codes "q4") full full (signs 12800) log_is_there log_is_full has_row
