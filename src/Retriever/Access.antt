-- ===== src/Retriever/Access.antt =====
-- crates/qpedia-retriever/src/lib.rs, `user_can_read_page`: a page may be read by the groups of its
-- sources.
use qpedia.Prelude.{
  Bool, true, false, Option, none, some, List, [], ◌∷◌, ◌++◌, if◌then◌else◌, is_empty, any,
}
use qpedia.Text.{
  Text, codes, text_eq, contains_text, trim, trim_start, trim_start_by, trim_end_by, trim_matches,
  strip_prefix, split_once, split, lines,
}
use qpedia.Prelude.{◌==◌}
use qpedia.Core.Acl.{Acl}

-- The identifiers between commas: quotes and empty pieces are dropped.
unfoldable pub names_in : List Text → List Text
unfolding trim trim_matches
names_in [] = []
names_in (x ∷ pieces) =
    let name = trim_matches b'\'' (trim_matches b'"' (trim x)) in
    let rest = names_in pieces in if is_empty name then rest else name ∷ rest

-- `rest.trim().trim_start_matches('[').trim_end_matches(']')`, split at its commas
unfoldable pub listed : Text → List Text
unfolding names_in trim trim_start_by trim_end_by split
listed rest =
    names_in
      (split b',' (trim_end_by (λ c. c == b']') (trim_start_by (λ c. c == b'[') (trim rest))))

unfoldable pub ids_in_lines : List Text → List Text
unfolding listed strip_prefix trim_start
ids_in_lines [] = []
ids_in_lines (line ∷ more) =
    let later = ids_in_lines more in
    elim (strip_prefix (codes "source_ids:") (trim_start line)) [
      | none ↦ later
      | some rest ↦ listed rest ++ later
    ]

-- The frontmatter without its fences, up to the first `\n---`.
unfoldable pub frontmatter : Text → Option Text
unfolding trim_start strip_prefix split_once
frontmatter content = elim (strip_prefix (codes "---") (trim_start content)) [
  | none ↦ none
  | some after ↦ elim (split_once (10 ∷ codes "---") after) [
    | none ↦ none
    | some (fm, rest) ↦ some fm
  ]
]

unfoldable pub parse_source_ids : Text → List Text
unfolding frontmatter ids_in_lines lines
parse_source_ids content = elim (frontmatter content) [
  | none ↦ []
  | some fm ↦ ids_in_lines (lines fm)
]

-- The rows of `sources` by their identifier; a lookup that fails is as one that finds nothing.
abbrev pub SourceAcls : Type 0
SourceAcls = Text → Option Acl

unfoldable pub groups_of : SourceAcls → List Text → List Text
groups_of acls [] = []
groups_of acls (id ∷ ids) =
    let later = groups_of acls ids in
    elim (acls id) [ none ↦ later | some acl ↦ acl.groups ++ later ]

abbrev meets : List Text → List Text → Bool
meets [] user_groups = false
meets (g ∷ acl) user_groups = any (contains_text (g ∷ acl)) user_groups

unfoldable pub user_can_read_page : SourceAcls → List Text → Text → Bool
unfolding text_eq contains_text parse_source_ids groups_of
user_can_read_page acls user_groups content =
    if any (λ g. text_eq g (codes "admin")) user_groups
    then true
    else if is_empty (parse_source_ids content)
    then true
    else meets (groups_of acls (parse_source_ids content)) user_groups
