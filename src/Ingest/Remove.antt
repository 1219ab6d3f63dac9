-- ===== src/Ingest/Remove.antt =====
-- crates/qpedia-ingest/src/handlers/remove.rs: what a remove job does to the wiki, to the rows of its
-- source and of the pages, and to the source's blobs. The services are an environment that says which of
-- them fail; what re-embedding makes of the pages' rows is a part of it.
pub mod Index
pub mod Fated
pub mod Planned
pub mod Settled
pub mod Removed
pub mod Forgets
pub mod Errors
pub mod FullLog
pub mod Tests
use qpedia.Prelude.{
  ℕ, zero, suc, Bool, true, false, not, ◌&&◌, ◌||◌, Option, none, some, List, [], ◌∷◌, ◌++◌, map,
  filter, length, if◌then◌else◌, is_empty, Result, ok, err, ◌>>=◌,
}
use qpedia.Text.{
  Text, codes, text_eq, contains_text, starts_with, split_once, split_head, trim, trim_end, lines,
  join, decimal,
}
use qpedia.Core.Wiki.{DiffOp, patch, delete, DiffBundle}
use qpedia.Store.WikiRepo.{Repo, Faults, CommitError, read_page, commit_bundle}
use qpedia.Store.WikiRepo.Pages.{list_pages}
use qpedia.Ingest.Frontmatter.{extract_source_ids, remove_source_id_from_frontmatter}

unfoldable pub is_system_path : Text → Bool
unfolding contains_text starts_with
is_system_path path =
    contains_text (codes "index.md" ∷ codes "log.md" ∷ codes "QPEDIA.md" ∷ []) path
    || starts_with (codes "_meta/") path

-- `filter(|s| s != source_id)`
unfoldable pub without : Text → List Text → List Text
unfolding text_eq
without source_id [] = []
without source_id (s ∷ ids) =
    let rest = without source_id ids in if text_eq source_id s then rest else s ∷ rest

pub record Plan : Type 0 where
  pub to_delete : List Text
  pub to_patch : List (Text × Text)

-- One page of the walk, before the later ones.
unfoldable pub plan_page : Text → Text → Text → Plan → Plan
unfolding extract_source_ids remove_source_id_from_frontmatter contains_text without
plan_page source_id path content later =
    let remaining = without source_id (extract_source_ids content) in
    if not (contains_text (extract_source_ids content) source_id)
    then later
    else if is_empty remaining
    then record later { to_delete = path ∷ later.to_delete }
    else record later {
      to_patch = (path, remove_source_id_from_frontmatter content remaining) ∷ later.to_patch;
    }

abbrev pub plan_read : Text → Text → Option Text → Plan → Plan
plan_read source_id path none later = later
plan_read source_id path (some content) later = plan_page source_id path content later

unfoldable pub plan : Text → Repo → List Text → Result CommitError Plan
unfolding is_system_path plan_page read_page
plan source_id r [] = ok (record { to_delete = []; to_patch = [] })
plan source_id r (path ∷ paths) =
    let rest = plan source_id r paths in
    if is_system_path path
    then rest
    else read_page r path >>= (λ page. rest >>= (λ later. ok (plan_read source_id path page later)))

abbrev pub delete_op : Text → Text → DiffOp
delete_op source_id path = delete path (codes "source " ++ (source_id ++ codes " removed"))

abbrev pub patch_op : Text → Text → Text → DiffOp
patch_op source_id path new_content =
    patch path new_content
      (codes "source " ++ (source_id ++ codes " removed (other sources remain)"))

unfoldable pub delete_ops : Text → List Text → List DiffOp
delete_ops source_id [] = []
delete_ops source_id (path ∷ paths) = delete_op source_id path ∷ delete_ops source_id paths

unfoldable pub patch_ops : Text → List (Text × Text) → List DiffOp
patch_ops source_id [] = []
patch_ops source_id ((path, new_content) ∷ pages) =
    patch_op source_id path new_content ∷ patch_ops source_id pages

-- The loop over the links of a line: each takes four characters at least.
keep_from : ℕ → List Text → Text → Bool
unfolding split_once trim split_head contains_text
keep_from zero deleted s = true
keep_from (suc fuel) deleted s = elim (split_once (codes "[[") s) [
  | none ↦ true
  | some (before, after) ↦ elim (split_once (codes "]]") after) [
    | none ↦ true
    | some (target, rest) ↦
        let more = keep_from fuel deleted rest in
        if contains_text deleted (split_head b'#' (trim target)) then false else more
  ]
]

unfoldable pub keep : List Text → Text → Bool
unfolding keep_from
keep deleted line = keep_from (length line) deleted line

unfoldable pub remove_wikilinks_from_index : Text → List Text → Text
unfolding keep lines join
remove_wikilinks_from_index content deleted =
    join (codes "\n") (filter (keep deleted) (lines content)) ++ codes "\n"

unfoldable pub index_patch : Text → List Text → Text → List DiffOp
unfolding remove_wikilinks_from_index text_eq decimal
index_patch source_id to_delete index_content =
    let new_index = remove_wikilinks_from_index index_content to_delete in
    if text_eq new_index index_content
    then []
    else patch (codes "index.md") new_index (
        codes "remove "
        ++ (decimal (length to_delete) ++ (codes " page(s) deleted with source " ++ source_id)))
      ∷ []

abbrev pub index_page_ops : Text → List Text → Option Text → List DiffOp
index_page_ops source_id to_delete none = []
index_page_ops source_id to_delete (some index_content) =
    index_patch source_id to_delete index_content

unfoldable pub index_ops : Text → Repo → List Text → Result CommitError (List DiffOp)
unfolding index_patch read_page
index_ops source_id r [] = ok []
index_ops source_id r (path ∷ paths) =
    read_page r (codes "index.md") >>= (λ page. ok (index_page_ops source_id (path ∷ paths) page))

unfoldable pub log_line : Text → Text → Plan → Text
unfolding decimal
log_line source_id timestamp p =
    let start = codes "\n- " ++ (timestamp ++ (codes " remove(" ++ source_id)) in
    if is_empty p.to_delete && is_empty p.to_patch
    then start ++ codes "): no wiki pages affected\n"
    else start
      ++ (codes "): deleted "
          ++ (decimal (length p.to_delete)
              ++ (codes " page(s), patched "
                  ++ (decimal (length p.to_patch) ++ codes " page(s)\n"))))

unfoldable pub log_patch : Text → Text → Plan → Text → DiffOp
unfolding log_line trim_end
log_patch source_id timestamp p log_content =
    patch (codes "log.md") (trim_end log_content ++ log_line source_id timestamp p)
      (codes "log source " ++ (source_id ++ codes " removal"))

abbrev pub log_page_ops : Text → Text → Plan → Option Text → List DiffOp
log_page_ops source_id timestamp p none = []
log_page_ops source_id timestamp p (some log_content) =
    log_patch source_id timestamp p log_content ∷ []

unfoldable pub log_ops : Text → Text → Plan → Repo → Result CommitError (List DiffOp)
unfolding log_patch read_page
log_ops source_id timestamp p r =
    read_page r (codes "log.md") >>= (λ page. ok (log_page_ops source_id timestamp p page))

abbrev pub page_ops : Text → Plan → List DiffOp
page_ops source_id p = delete_ops source_id p.to_delete ++ patch_ops source_id p.to_patch

-- The plan, and all operations of the bundle.
unfoldable pub planned : Text → Text → Repo → Result CommitError (Plan × List DiffOp)
unfolding plan list_pages delete_ops patch_ops index_ops log_ops
planned source_id timestamp r = plan source_id r (list_pages r.tree) >>= (λ p.
    index_ops source_id r p.to_delete >>= (λ index.
      log_ops source_id timestamp p r >>= (λ log. ok (p, page_ops source_id p ++ (index ++ log)))))

pub record RemoveEnv : Type 0 where
  pub timestamp : Text
  pub faults : Faults
  pub source_fails : Bool
  pub wiki_fails : Bool
  pub blob_fails : Bool
  pub row_fails : Bool
  pub page_row_fails : Text → Bool
  pub reembed : Repo → List Text → List Text

pub record RemoveState : Type 0 where
  pub repo : Repo
  -- The identifiers with a row, those with blobs, and the paths with a row.
  pub sources : List Text
  pub blobs : List Text
  pub wiki_pages : List Text

pub data RemoveError : Type 0 where
  source_failed wiki_failed row_failed : RemoveError
  read_failed commit_failed : CommitError → RemoveError

abbrev pub RemoveOutcome : Type 0
RemoveOutcome = RemoveState × Result RemoveError (Unit {0})

-- `delete_all`, whose error is only a warning.
unfoldable pub drop_blobs : RemoveEnv → Text → RemoveState → RemoveState
unfolding without
drop_blobs env source_id st =
    if env.blob_fails then st else record st { blobs = without source_id st.blobs }

unfoldable pub cleanup : RemoveEnv → Text → RemoveState → RemoveOutcome
unfolding drop_blobs without
cleanup env source_id st =
    let dropped = drop_blobs env source_id st in
    if env.row_fails
    then (dropped, err row_failed)
    else (record dropped { sources = without source_id dropped.sources }, ok tt)

unfoldable pub delete_page_rows : RemoveEnv → List Text → List Text → List Text
unfolding without
delete_page_rows env [] rows = rows
delete_page_rows env (path ∷ paths) rows =
    delete_page_rows env paths (if env.page_row_fails path then rows else without path rows)

unfoldable pub page_rows : RemoveEnv → Plan → Repo → List Text → List Text
unfolding delete_page_rows
page_rows env p r rows =
    let left = delete_page_rows env p.to_delete rows in
    if is_empty p.to_patch then left else env.reembed r left

after_commit : RemoveEnv → Text → Plan → RemoveState → Repo × Result CommitError ℕ → RemoveOutcome
unfolding page_rows cleanup
after_commit env source_id p st (repo, err e) = (record st { repo = repo }, err (commit_failed e))
after_commit env source_id p st (repo, ok sha) =
    cleanup env source_id
      (record st { repo = repo; wiki_pages = page_rows env p repo st.wiki_pages })

bundle_of : Text → Plan → List DiffOp → DiffBundle
unfolding decimal
bundle_of source_id p ops = record {
  ingest_id = codes "remove-" ++ source_id;
  operations = ops;
  summary =
      codes "source "
      ++ (source_id
          ++ (codes " removed: "
              ++ (decimal (length p.to_delete)
                  ++ (codes " deleted, " ++ (decimal (length p.to_patch) ++ codes " patched")))));
}

after_plan :
    RemoveEnv → Text → RemoveState → Result CommitError (Plan × List DiffOp) → RemoveOutcome
unfolding after_commit bundle_of commit_bundle cleanup
after_plan env source_id st (err e) = (st, err (read_failed e))
after_plan env source_id st (ok (p, ops)) =
    if is_empty ops
    then cleanup env source_id st
    else after_commit env source_id p st
        (commit_bundle env.faults (bundle_of source_id p ops) st.repo)

unfoldable pub run : RemoveEnv → Text → RemoveState → RemoveOutcome
unfolding drop_blobs after_plan planned contains_text
run env source_id st =
    if env.source_fails
    then (st, err source_failed)
    else if not (contains_text st.sources source_id)
    then (drop_blobs env source_id st, ok tt)
    else if env.wiki_fails
    then (st, err wiki_failed)
    else after_plan env source_id st (planned source_id env.timestamp st.repo)
