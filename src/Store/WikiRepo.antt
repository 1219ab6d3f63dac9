-- ===== src/Store/WikiRepo.antt =====
-- crates/qpedia-store/src/wikirepo.rs: the git repository of one tenant's wiki. A file is known by the
-- components of its path under the root; `head` holds the files of the last commit.
pub mod SafeJoin
pub mod Files
pub mod Checks
pub mod Replay
pub mod Commit
pub mod Pages
pub mod Tests
use qpedia.Prelude.{
  ℕ, suc, ◌+◌, Bool, true, false, not, ◌&&◌, ◌||◌, Option, none, some, List, [], ◌∷◌, ◌++◌, ltb,
  ◌==◌, if◌then◌else◌, is_empty, any, all, length, Result, ok, err, ◌>>=◌, ◌>>◌, reject_if,
}
use qpedia.Text.{
  Text, codes, text_eq, contains_text, byte_len, trim_start_by, starts_with, contains, split,
  decimal,
}
use qpedia.Core.Wiki.{DiffOp, create, patch, delete, link, DiffBundle}

-- The names on the way from the root to a file.
abbrev pub FilePath : Type 0
FilePath = List Text

pub data PathError : Type 0 where
  empty_path under_git path_traversal : PathError

-- `Path::components` drops empty names and ".".
unfoldable pub components : List Text → FilePath
unfolding text_eq
components [] = []
components (s ∷ parts) =
    let rest = components parts in if is_empty s || text_eq s (codes ".") then rest else s ∷ rest

checked_join : Text → Result PathError FilePath
unfolding starts_with contains contains_text components split
checked_join rel =
    if is_empty rel
    then err empty_path
    else if starts_with (codes ".git") rel || contains (codes "/.git/") rel
    then err under_git
    else if contains_text (split b'/' rel) (codes "..")
    then err path_traversal
    else ok (components (split b'/' rel))

-- With its leading slashes gone a path has no root component.
unfoldable pub safe_join : Text → Result PathError FilePath
unfolding checked_join trim_start_by
safe_join rel = checked_join (trim_start_by (λ c. c == b'/') rel)

unfoldable pub path_eq : FilePath → FilePath → Bool
unfolding text_eq
path_eq [] [] = true
path_eq (a ∷ p) (b ∷ q) = text_eq a b && path_eq p q
path_eq _ _ = false

abbrev pub FileTree : Type 0
FileTree = List (FilePath × Text)

unfoldable pub read_file : FilePath → FileTree → Option Text
unfolding path_eq
read_file p [] = none
read_file p ((q, s) ∷ files) = if path_eq q p then some s else read_file p files

unfoldable pub remove_file : FilePath → FileTree → FileTree
unfolding path_eq
remove_file p [] = []
remove_file p ((q, s) ∷ files) =
    let rest = remove_file p files in if path_eq q p then rest else (q, s) ∷ rest

unfoldable pub write_file : FilePath → Text → FileTree → FileTree
unfolding remove_file
write_file p s files = (p, s) ∷ remove_file p files

holds : FileTree → FilePath × Text → Bool
unfolding read_file text_eq
holds files (p, s) = elim (read_file p files) [ none ↦ false | some t ↦ text_eq t s ]

-- `git status --porcelain` says nothing.
unfoldable pub is_clean : FileTree → FileTree → Bool
unfolding holds
is_clean tree head = all (holds head) tree && all (holds tree) head

pub data GitCommand : Type 0 where
  add_all status commit rev_parse : GitCommand

-- What the file system and git refuse.
pub record Faults : Type 0 where
  pub write_fails : FilePath → Bool
  pub git_fails : GitCommand → Bool

pub record Repo : Type 0 where
  pub tree : FileTree
  pub head : FileTree
  pub log : List Text

pub data CommitError : Type 0 where
  page_too_large : Text → ℕ → CommitError
  bundle_too_large : ℕ → CommitError
  bad_path : PathError → CommitError
  write_failed : Text → CommitError
  git_failed : GitCommand → CommitError
  no_changes : CommitError

abbrev pub max_page_bytes : ℕ
max_page_bytes = 51200

abbrev pub max_bundle_bytes : ℕ
max_bundle_bytes = 512000

unfoldable pub join_path : Text → Result CommitError FilePath
unfolding safe_join
join_path path = elim (safe_join path) [ ok p ↦ ok p | err e ↦ err (bad_path e) ]

unfoldable pub check_write : Text → Text → ℕ → Result CommitError ℕ
unfolding join_path byte_len
check_write path content total = do
  reject_if (ltb max_page_bytes (byte_len content)) (page_too_large path (byte_len content))
  _ ← join_path path
  ok (total + byte_len content)

-- The first loop of `commit_bundle`, from `total_bytes` on.
unfoldable pub check_op : DiffOp → ℕ → Result CommitError ℕ
unfolding check_write
check_op (create path content rationale) total = check_write path content total
check_op (patch path new_content rationale) total = check_write path new_content total
check_op (delete path rationale) total = do _ ← join_path path; ok total
check_op (link from to kind) total = do _ ← join_path from; _ ← join_path to; ok total

unfoldable pub check_ops : List DiffOp → ℕ → Result CommitError ℕ
unfolding check_op
check_ops [] total = ok total
check_ops (op ∷ ops) total = check_op op total >>= check_ops ops

-- A write that the file system accepts.
write_at : Faults → Text → Text → FileTree → Result CommitError FileTree
unfolding join_path write_file
write_at faults path content files = do
  p ← join_path path
  reject_if (faults.write_fails p) (write_failed path)
  ok (write_file p content files)

delete_at : Faults → Text → FileTree → Option Text → FilePath → Result CommitError FileTree
unfolding remove_file
delete_at faults path files none p = ok files
delete_at faults path files (some s) p = do
  reject_if (faults.write_fails p) (write_failed path)
  ok (remove_file p files)

unfoldable pub apply_op : Faults → DiffOp → FileTree → Result CommitError FileTree
unfolding write_at delete_at read_file
apply_op faults (create path content rationale) files = write_at faults path content files
apply_op faults (patch path new_content rationale) files = write_at faults path new_content files
apply_op faults (delete path rationale) files = do
  p ← join_path path
  delete_at faults path files (read_file p files) p
apply_op faults (link from to kind) files = ok files

-- The second loop. An error stops it, and what was written stays in the tree.
applied :
    FileTree
    → Result CommitError FileTree
    → (FileTree → FileTree × Result CommitError (Unit {0}))
    → FileTree × Result CommitError (Unit {0})
applied files (err e) more = (files, err e)
applied files (ok files') more = more files'

unfoldable pub apply_ops :
    Faults → List DiffOp → FileTree → FileTree × Result CommitError (Unit {0})
unfolding apply_op applied
apply_ops faults [] files = (files, ok tt)
apply_ops faults (op ∷ ops) files = applied files (apply_op faults op files) (apply_ops faults ops)

unfoldable pub message : DiffBundle → Text
message bundle =
    if is_empty bundle.summary
    then codes "ingest(" ++ (bundle.ingest_id ++ codes ")")
    else codes "ingest(" ++ (bundle.ingest_id ++ (codes "): " ++ bundle.summary))

-- `git add`, `git status`, `git commit` and `git rev-parse`; the number of commits stands for the hash.
commit_tree : Faults → DiffBundle → Repo → Repo × Result CommitError ℕ
unfolding is_clean message
commit_tree faults bundle r =
    let landed = record r { head = r.tree; log = message bundle ∷ r.log } in
    if faults.git_fails add_all
    then (r, err (git_failed add_all))
    else if faults.git_fails status
    then (r, err (git_failed status))
    else if is_clean r.tree r.head
    then (r, err no_changes)
    else if faults.git_fails commit
    then (r, err (git_failed commit))
    else if faults.git_fails rev_parse
    then (landed, err (git_failed rev_parse))
    else (landed, ok (length landed.log))

after_apply :
    Faults
    → DiffBundle
    → Repo
    → FileTree × Result CommitError (Unit {0})
    → Repo × Result CommitError ℕ
unfolding commit_tree
after_apply faults bundle r (files, err e) = (record r { tree = files }, err e)
after_apply faults bundle r (files, ok _) = commit_tree faults bundle (record r { tree = files })

unfoldable pub after_check :
    Faults → DiffBundle → Repo → Result CommitError ℕ → Repo × Result CommitError ℕ
unfolding after_apply apply_ops
after_check faults bundle r (err e) = (r, err e)
after_check faults bundle r (ok total) =
    if ltb max_bundle_bytes total
    then (r, err (bundle_too_large total))
    else after_apply faults bundle r (apply_ops faults bundle.operations r.tree)

unfoldable pub commit_bundle : Faults → DiffBundle → Repo → Repo × Result CommitError ℕ
unfolding after_check check_ops
commit_bundle faults bundle r = after_check faults bundle r (check_ops bundle.operations 0)

-- `read_page`; a page that the file system cannot read is not modelled.
unfoldable pub read_page : Repo → Text → Result CommitError (Option Text)
unfolding join_path read_file
read_page r path = do p ← join_path path; ok (read_file p r.tree)
