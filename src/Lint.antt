-- ===== src/Lint.antt =====
-- crates/qpedia-lint/src/lib.rs: the report on a wiki. The database's answers, and the search for
-- contradictions, which asks the language model, are parameters. A `HashSet` is a list without
-- repetitions, of which the order means nothing.
pub mod Links
pub mod Walked
pub mod Exact
pub mod Tests
use qpedia.Prelude.{
  ℕ, zero, suc, ◌+◌, Bool, true, false, not, ◌&&◌, ◌||◌, Option, none, some, List, [], ◌∷◌, ◌++◌,
  map, filter, length, leb, ◌==◌, if◌then◌else◌, is_empty, Result, ok, err, ◌>>=◌, or_fail,
}
use qpedia.Text.{Text, codes, text_eq, contains_text}
use qpedia.Store.WikiRepo.{Repo, CommitError, read_page}
use qpedia.Store.WikiRepo.Pages.{list_pages, sort}
use qpedia.Retriever.Access.{parse_source_ids}
use qpedia.Retriever.Links.{extract_wikilinks, path_only}

-- `extract_source_ids` has the text of the retriever's `parse_source_ids`.
unfoldable pub extract_source_ids : Text → List Text
unfolding parse_source_ids
extract_source_ids = parse_source_ids

unfoldable pub is_skipped : Text → Bool
unfolding contains_text
is_skipped = contains_text (codes "index.md" ∷ codes "log.md" ∷ codes "QPEDIA.md" ∷ [])

pub record BrokenLink : Type 0 where
  pub page : Text
  pub target : Text

pub record IndexDrift : Type 0 where
  pub missing_from_index : List Text
  pub stale_in_index : List Text

pub record Duplicate : Type 0 where
  pub a : Text
  pub b : Text
  pub certainty : ℕ

pub record Contradiction : Type 0 where
  pub tag : Text
  pub pages : List Text
  pub summary : Text

pub record LintReport : Type 0 where
  pub page_count : ℕ
  pub orphans : List Text
  pub broken_links : List BrokenLink
  pub index_drift : IndexDrift
  pub stale_source_ids : List Text
  pub duplicates : List Duplicate
  pub contradictions : List Contradiction

unfoldable pub issue_count : LintReport → ℕ
issue_count r =
    length r.orphans
    + length r.broken_links
    + length r.index_drift.missing_from_index
    + length r.index_drift.stale_in_index
    + length r.stale_source_ids
    + length r.duplicates
    + length r.contradictions

-- `*inbound.entry(path).or_insert(0) += 1`
pub bump : Text → List (Text × ℕ) → List (Text × ℕ)
unfolding text_eq
bump path [] = (path, 1) ∷ []
bump path ((p, n) ∷ inbound) =
    let rest = bump path inbound in if text_eq p path then (p, suc n) ∷ inbound else (p, n) ∷ rest

-- `inbound.get(path).unwrap_or(0)`
pub links_to : Text → List (Text × ℕ) → ℕ
unfolding text_eq
links_to path [] = 0
links_to path ((p, n) ∷ inbound) =
    let rest = links_to path inbound in if text_eq p path then n else rest

pub bump_all : List Text → List (Text × ℕ) → List (Text × ℕ)
unfolding bump path_only
bump_all [] inbound = inbound
bump_all (target ∷ targets) inbound = bump (path_only target) (bump_all targets inbound)

pub broken_in : List Text → Text → List Text → List BrokenLink
unfolding path_only contains_text
broken_in pages path [] = []
broken_in pages path (target ∷ targets) =
    let rest = broken_in pages path targets in
    if contains_text pages (path_only target)
    then rest
    else record { page = path; target = target } ∷ rest

-- What the walk over the pages records.
pub record Walk : Type 0 where
  pub inbound : List (Text × ℕ)
  pub broken_links : List BrokenLink
  pub cache : List (Text × Text)

pub walk_page : List Text → Text → Option Text → Walk → Walk
unfolding extract_wikilinks bump_all broken_in
walk_page pages path none later = later
walk_page pages path (some content) later = record {
  inbound = bump_all (extract_wikilinks content) later.inbound;
  broken_links = broken_in pages path (extract_wikilinks content) ++ later.broken_links;
  cache = (path, content) ∷ later.cache;
}

pub walk : Repo → List Text → List Text → Result CommitError Walk
unfolding walk_page read_page
walk r pages [] = ok (record { inbound = []; broken_links = []; cache = [] })
walk r pages (path ∷ paths) =
    let rest = walk r pages paths in
    read_page r path >>= (λ page. rest >>= (λ later. ok (walk_page pages path page later)))

pub is_orphan : List (Text × ℕ) → Text → Bool
unfolding is_skipped links_to
is_orphan inbound path = not (is_skipped path) && links_to path inbound == 0

pub cached : Text → List (Text × Text) → Option Text
unfolding text_eq
cached path [] = none
cached path ((p, content) ∷ cache) =
    let rest = cached path cache in if text_eq p path then some content else rest

pub dedup : List Text → List Text
unfolding contains_text
dedup [] = []
dedup (x ∷ xs) = let rest = dedup xs in if contains_text rest x then rest else x ∷ rest

pub listed_in : Text → List Text
unfolding dedup extract_wikilinks path_only
listed_in index = dedup (map (λ t. path_only t) (extract_wikilinks index))

pub drift : List Text → Option Text → IndexDrift
unfolding listed_in is_skipped contains_text
drift pages none = record { missing_from_index = []; stale_in_index = [] }
drift pages (some index) = record {
  missing_from_index =
      filter (λ p. not (is_skipped p) && not (contains_text (listed_in index) p)) pages;
  stale_in_index = filter (λ e. not (contains_text pages e)) (listed_in index);
}

-- The identifiers of all pages.
pub ids_of : List (Text × Text) → List Text
unfolding extract_source_ids
ids_of [] = []
ids_of ((p, content) ∷ cache) = extract_source_ids content ++ ids_of cache

pub data LintError : Type 0 where
  read_failed : CommitError → LintError
  query_failed : LintError

-- `get_source_in` for one after the other; `exists` is its answer, if it does not fail.
pub stale : (Text → Option Bool) → List Text → Result LintError (List Text)
stale exists [] = ok []
stale exists (sid ∷ sids) =
    let rest = stale exists sids in
    or_fail (exists sid) query_failed
    >>= (λ found. rest >>= (λ later. ok (if found then later else sid ∷ later)))

pub by_certainty : Duplicate → List Duplicate → List Duplicate
by_certainty d [] = d ∷ []
by_certainty d (e ∷ ds) =
    let rest = by_certainty d ds in if leb e.certainty d.certainty then d ∷ e ∷ ds else e ∷ rest

-- System pages are left out; the pairs come with the most certain first.
pub duplicates_of : Option (List Duplicate) → List Duplicate
unfolding is_skipped by_certainty
duplicates_of none = []
duplicates_of (some []) = []
duplicates_of (some (d ∷ pairs)) =
    let rest = duplicates_of (some pairs) in
    if is_skipped d.a || is_skipped d.b then rest else by_certainty d rest

pub or_nothing : Option (List Contradiction) → List Contradiction
or_nothing none = []
or_nothing (some found) = found

pub record LintEnv : Type 0 where
  pub exists : Text → Option Bool
  pub near_duplicates : Option (List Duplicate)
  pub detect_contradictions : Option (List Contradiction)

pub report_of : LintEnv → List Text → Walk → List Text → LintReport
unfolding is_orphan drift cached duplicates_of or_nothing
report_of env pages w stale_ids = record {
  page_count = length pages;
  orphans = filter (is_orphan w.inbound) pages;
  broken_links = w.broken_links;
  index_drift = drift pages (cached (codes "index.md") w.cache);
  stale_source_ids = sort stale_ids;
  duplicates = duplicates_of env.near_duplicates;
  contradictions = or_nothing env.detect_contradictions;
}

pub after_walk : LintEnv → List Text → Result CommitError Walk → Result LintError LintReport
unfolding report_of stale dedup ids_of
after_walk env pages (err e) = err (read_failed e)
after_walk env pages (ok w) =
    stale env.exists (dedup (ids_of w.cache))
    >>= (λ stale_ids. ok (report_of env pages w stale_ids))

unfoldable pub run : LintEnv → Repo → Result LintError LintReport
unfolding list_pages walk after_walk
run env r = after_walk env (list_pages r.tree) (walk r (list_pages r.tree) (list_pages r.tree))
