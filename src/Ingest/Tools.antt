-- ===== src/Ingest/Tools.antt =====
-- crates/qpedia-ingest/src/agent.rs: the tools that read and stage pages.
use qpedia.Prelude.{
  ℕ, ◌+◌, Bool, true, false, not, ◌||◌, Option, none, some, List, [], ◌∷◌, ◌++◌, ltb, if◌then◌else◌,
  Result, ok, err, ◌>>=◌, ◌>>◌, reject_if, or_fail,
}
use qpedia.Text.{
  Text, codes, text_eq, contains_text, byte_len, starts_with, strip_prefix, ends_with, contains,
  split_once, trim_start,
}
use qpedia.Llm.{Argument, str_argument}
use qpedia.Core.Wiki.{DiffOp, create, patch, delete, link}
use qpedia.Store.WikiRepo.{Repo, CommitError, read_page}

abbrev pub max_page_bytes : ℕ
max_page_bytes = 51200

pub record StagedOps : Type 0 where
  pub ops : List DiffOp
  pub created_paths : List Text
  pub patched_paths : List Text
  pub bytes : ℕ

abbrev pub nothing_staged : StagedOps
nothing_staged = record { ops = []; created_paths = []; patched_paths = []; bytes = 0 }

pub data ToolError : Type 0 where
  missing invalid_path not_markdown page_too_large already_exists not_found unknown_tool :
      Text → ToolError
  system_owned : ToolError
  wiki_failed : CommitError → ToolError
  other_failed : Text → ToolError

unfoldable pub require_str : List (Text × Argument) → Text → Result ToolError Text
unfolding str_argument
require_str args key = or_fail (str_argument key args) (missing key)

unfoldable pub argument_or_empty : Text → List (Text × Argument) → Text
unfolding str_argument
argument_or_empty key args = elim (str_argument key args) [ none ↦ [] | some v ↦ v ]

unfoldable pub check_path : Text → Result ToolError (Unit {0})
unfolding starts_with contains text_eq ends_with
check_path path =
    if starts_with (codes "/") path || contains (codes "..") path
    then err (invalid_path path)
    else if text_eq path (codes "QPEDIA.md")
    then err system_owned
    else if not (ends_with (codes ".md") path)
    then err (not_markdown path)
    else ok tt

unfoldable pub check_page_size : Text → Text → Result ToolError (Unit {0})
unfolding byte_len
check_page_size path content =
    if ltb max_page_bytes (byte_len content) then err (page_too_large path) else ok tt

-- The fresh identifier and the time of a page that is made.
pub record Stamp : Type 0 where
  pub id : Text
  pub now : Text

-- `\nkey: value`, unless the frontmatter has the key.
addition : Text → Text → Text → Text
unfolding contains
addition fm key value =
    if contains (key ++ codes ":") fm then [] else 10 ∷ (key ++ (codes ": " ++ value))

with_frontmatter : Stamp → Text → Option (Text × Text) → Text
unfolding addition
with_frontmatter stamp content none = content
with_frontmatter stamp content (some (fm, body)) =
    codes "---"
    ++ (fm
        ++ (addition fm (codes "id") stamp.id
            ++ (addition fm (codes "created_at") stamp.now
                ++ (addition fm (codes "updated_at") stamp.now ++ ((10 ∷ codes "---") ++ body)))))

unfoldable pub fresh_frontmatter : Stamp → Text → Text
fresh_frontmatter stamp content =
    (codes "---" ++ (10 ∷ codes "id: "))
    ++ (stamp.id
        ++ ((10 ∷ codes "created_at: ")
            ++ (stamp.now
                ++ ((10 ∷ codes "updated_at: ")
                    ++ (stamp.now ++ ((10 ∷ codes "---") ++ (10 ∷ content)))))))

unfoldable pub ensure_frontmatter_id_and_timestamps : Stamp → Text → Text
unfolding with_frontmatter fresh_frontmatter strip_prefix split_once trim_start
ensure_frontmatter_id_and_timestamps stamp content =
    elim (strip_prefix (codes "---") (trim_start content)) [
      | none ↦ fresh_frontmatter stamp content
      | some after_first ↦
          with_frontmatter stamp content (split_once (10 ∷ codes "---") after_first)
    ]

-- The first staged page with this path.
unfoldable pub staged_page : Text → List DiffOp → Option Text
unfolding text_eq
staged_page path [] = none
staged_page path (create p content rationale ∷ ops) =
    if text_eq p path then some content else staged_page path ops
staged_page path (patch p new_content rationale ∷ ops) =
    if text_eq p path then some new_content else staged_page path ops
staged_page path (delete p rationale ∷ ops) = staged_page path ops
staged_page path (link from to kind ∷ ops) = staged_page path ops

unfoldable pub wiki_page : Repo → Text → Result ToolError (Option Text)
unfolding read_page
wiki_page wiki path = elim (read_page wiki path) [ ok o ↦ ok o | err e ↦ err (wiki_failed e) ]

abbrev pub is_some : {A : Type 0} → Option A → Bool
is_some none = false
is_some (some a) = true

module _ (wiki : Repo) where
  unfoldable pub read_staged : Text → List DiffOp → Result ToolError Text
  unfolding staged_page wiki_page
  read_staged path ops = elim (staged_page path ops) [
    | some content ↦ ok content
    | none ↦ wiki_page wiki path >>= λ o. or_fail o (not_found path)
  ]

  -- Whether the path is taken: the last question is asked only if the first two are answered no.
  unfoldable pub is_taken : Text → StagedOps → Result ToolError Bool
  unfolding contains_text wiki_page
  is_taken path staged =
      if contains_text staged.created_paths path || contains_text staged.patched_paths path
      then ok true
      else wiki_page wiki path >>= λ o. ok (is_some o)

  unfoldable pub stage_new : Stamp → Text → Text → Text → StagedOps → StagedOps
  unfolding ensure_frontmatter_id_and_timestamps byte_len
  stage_new stamp path content rationale staged =
      let full = ensure_frontmatter_id_and_timestamps stamp content in
      record {
        ops = staged.ops ++ create path full rationale ∷ [];
        created_paths = path ∷ staged.created_paths;
        patched_paths = staged.patched_paths;
        bytes = staged.bytes + byte_len full;
      }

  unfoldable pub propose_new :
      Stamp → List (Text × Argument) → StagedOps → Result ToolError StagedOps
  unfolding require_str argument_or_empty check_path check_page_size is_taken stage_new
  propose_new stamp args staged = do
    path ← require_str args (codes "path")
    content ← require_str args (codes "content")
    check_path path
    check_page_size path content
    taken ← is_taken path staged
    reject_if taken (already_exists path)
    ok (stage_new stamp path content (argument_or_empty (codes "rationale") args) staged)

  unfoldable pub is_known : Text → StagedOps → Result ToolError Bool
  unfolding contains_text wiki_page
  is_known path staged =
      if contains_text staged.created_paths path
      then ok true
      else wiki_page wiki path >>= λ o. ok (is_some o)

  unfoldable pub stage_patch : Text → Text → Text → StagedOps → StagedOps
  unfolding byte_len
  stage_patch path new_content rationale staged = record {
    ops = staged.ops ++ patch path new_content rationale ∷ [];
    created_paths = staged.created_paths;
    patched_paths = path ∷ staged.patched_paths;
    bytes = staged.bytes + byte_len new_content;
  }

  unfoldable pub propose_patch : List (Text × Argument) → StagedOps → Result ToolError StagedOps
  unfolding require_str argument_or_empty check_path check_page_size is_known stage_patch
  propose_patch args staged = do
    path ← require_str args (codes "path")
    new_content ← require_str args (codes "new_content")
    check_path path
    check_page_size path new_content
    known ← is_known path staged
    reject_if (not known) (not_found path)
    ok (stage_patch path new_content (argument_or_empty (codes "rationale") args) staged)
