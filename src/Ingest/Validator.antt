-- ===== src/Ingest/Validator.antt =====
-- crates/qpedia-ingest/src/validator.rs: the checks of a bundle before it is committed. That markdown
-- parses is not modelled, since the parser accepts any text.
pub mod Universe
pub mod Meaning
pub mod Links
pub mod Tests
use qpedia.Prelude.{
  ℕ, zero, suc, ◌+◌, Bool, true, false, not, ◌||◌, Option, none, some, List, [], ◌∷◌, ◌++◌,
  if◌then◌else◌, is_empty, any, length,
}
use qpedia.Text.{
  Text, codes, text_eq, contains_text, byte_len, starts_with, strip_prefix, split_once, split_head,
  trim, trim_start, lines,
}
use qpedia.Core.Wiki.{DiffOp, create, patch, delete, link, DiffBundle}

pub data ValidationError : Type 0 where
  no_frontmatter missing_title missing_kind : (path : Text) → ValidationError
  unresolved_link : (path target : Text) → ValidationError
  empty_bundle : ValidationError

pub record ValidationReport : Type 0 where
  pub errors : List ValidationError
  pub touched : List Text
  pub bytes : ℕ

unfoldable pub is_system : Text → Bool
unfolding contains_text starts_with
is_system path =
    contains_text (codes "index.md" ∷ codes "log.md" ∷ codes "QPEDIA.md" ∷ []) path
    || starts_with (codes "_meta/") path

unfoldable pub extract_frontmatter : Text → Option Text
unfolding trim_start strip_prefix split_once
extract_frontmatter content = elim (strip_prefix (codes "---") (trim_start content)) [
  | none ↦ none
  | some after_first ↦ elim (split_once (10 ∷ codes "---") after_first) [
    | none ↦ none
    | some (fm, rest) ↦ some fm
  ]
]

unfoldable pub line_has_key : Text → Text → Bool
unfolding lines trim_start starts_with
line_has_key fm key = any (λ l. starts_with (key ++ codes ":") (trim_start l)) (lines fm)

-- The links from here on: with no closing brackets the search ends.
unfoldable pub links_from : ℕ → Text → List Text
unfolding split_once trim
links_from zero s = []
links_from (suc fuel) s = elim (split_once (codes "[[") s) [
  | none ↦ []
  | some (before, after) ↦ elim (split_once (codes "]]") after) [
    | none ↦ []
    | some (target, rest) ↦ trim target ∷ links_from fuel rest
  ]
]

-- Each link takes four characters at least.
unfoldable pub extract_wikilinks : Text → List Text
unfolding links_from
extract_wikilinks content = links_from (length content) content

-- The pages that there will be, for the links.
unfoldable pub remove_path : Text → List Text → List Text
unfolding text_eq
remove_path path [] = []
remove_path path (p ∷ paths) =
    let rest = remove_path path paths in if text_eq path p then rest else p ∷ rest

unfoldable pub post_universe : List DiffOp → List Text → List Text
unfolding remove_path
post_universe [] paths = paths
post_universe (create path content rationale ∷ ops) paths = post_universe ops (path ∷ paths)
post_universe (delete path rationale ∷ ops) paths = post_universe ops (remove_path path paths)
post_universe (patch path new_content rationale ∷ ops) paths = post_universe ops paths
post_universe (link from to kind ∷ ops) paths = post_universe ops paths

unfoldable pub key_errors : Text → Option Text → List ValidationError
unfolding line_has_key
key_errors path none = no_frontmatter path ∷ []
key_errors path (some fm) =
    (if line_has_key fm (codes "title") then [] else missing_title path ∷ [])
    ++ (if line_has_key fm (codes "kind") then [] else missing_kind path ∷ [])

unfoldable pub link_errors : Text → List Text → List Text → List ValidationError
unfolding contains_text split_head
link_errors path universe [] = []
link_errors path universe (target ∷ targets) =
    let later = link_errors path universe targets in
    if contains_text universe (split_head b'#' target)
    then later
    else unresolved_link path target ∷ later

unfoldable pub check_page : Text → Text → List Text → List ValidationError
unfolding is_system extract_frontmatter key_errors extract_wikilinks link_errors
check_page path content universe =
    if is_system path
    then []
    else key_errors path (extract_frontmatter content)
      ++ link_errors path universe (extract_wikilinks content)

insert_text : Text → List Text → List Text
unfolding contains_text
insert_text s xs = if contains_text xs s then xs else s ∷ xs

checked : Text → Text → List Text → ValidationReport → ValidationReport
unfolding check_page insert_text byte_len
checked path content universe rest = record {
  errors = check_page path content universe ++ rest.errors;
  touched = insert_text path rest.touched;
  bytes = byte_len content + rest.bytes;
}

unfoldable pub validate_ops : List Text → List DiffOp → ValidationReport
unfolding checked
validate_ops universe [] = record { errors = []; touched = []; bytes = 0 }
validate_ops universe (create path content rationale ∷ ops) =
    checked path content universe (validate_ops universe ops)
validate_ops universe (patch path new_content rationale ∷ ops) =
    checked path new_content universe (validate_ops universe ops)
validate_ops universe (delete path rationale ∷ ops) = validate_ops universe ops
validate_ops universe (link from to kind ∷ ops) = validate_ops universe ops

-- `existing` is what `list_pages` returned.
unfoldable pub validate : DiffBundle → List Text → ValidationReport
unfolding validate_ops post_universe
validate bundle existing =
    if is_empty bundle.operations
    then record { errors = empty_bundle ∷ []; touched = []; bytes = 0 }
    else validate_ops (post_universe bundle.operations existing) bundle.operations
