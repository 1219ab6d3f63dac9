-- ===== src/Ingest/Frontmatter.antt =====
-- crates/qpedia-ingest/src/handlers/remove.rs: the identifiers of sources in the frontmatter of a page.
pub mod Quoting
pub mod Lines
pub mod Stripped
pub mod Relined
pub mod RoundTrip
pub mod Tests
use qpedia.Prelude.{
  ℕ, Bool, true, false, ◌||◌, Option, none, some, List, [], ◌∷◌, ◌++◌, map, if◌then◌else◌, any,
}
use qpedia.Text.{
  Text, codes, newline, is_whitespace, starts_with, strip_prefix, split_once, trim_start, lines,
  join,
}
use qpedia.Retriever.Access.{parse_source_ids}

-- `extract_source_ids` has the text of the retriever's `parse_source_ids`.
unfoldable pub extract_source_ids : Text → List Text
unfolding parse_source_ids
extract_source_ids = parse_source_ids

-- What `trim_start` leaves out.
unfoldable pub leading_ws : Text → Text
leading_ws [] = []
leading_ws (c ∷ s) = let more = leading_ws s in if is_whitespace c then c ∷ more else []

-- `format!("\"{s}\"")`
abbrev pub quoted : Text → Text
quoted s = b'"' ∷ (s ++ codes "\"")

unfoldable pub ids_line : List Text → Text
unfolding join
ids_line remaining =
    codes "source_ids: [" ++ (join (codes ", ") (map (λ s. quoted s) remaining) ++ codes "]")

unfoldable pub is_ids_line : Text → Bool
unfolding starts_with trim_start
is_ids_line line = starts_with (codes "source_ids:") (trim_start line)

unfoldable pub new_line : List Text → Text → Text
unfolding is_ids_line leading_ws ids_line
new_line remaining line = if is_ids_line line then leading_ws line ++ ids_line remaining else line

unfoldable pub new_fm_lines : List Text → List Text → List Text
unfolding new_line is_ids_line ids_line
new_fm_lines remaining old =
    if any is_ids_line old
    then map (new_line remaining) old
    else map (new_line remaining) old ++ ids_line remaining ∷ []

unfoldable pub remove_source_id_from_frontmatter : Text → List Text → Text
unfolding leading_ws trim_start strip_prefix split_once new_fm_lines lines join
remove_source_id_from_frontmatter content remaining =
    elim (strip_prefix (codes "---") (trim_start content)) [
      | none ↦ content
      | some after_first ↦ elim (split_once (10 ∷ codes "---") after_first) [
        | none ↦ content
        | some (fm, rest) ↦
            leading_ws content
            ++ (codes "---"
                ++ (join (codes "\n") (new_fm_lines remaining (lines fm))
                    ++ ((10 ∷ codes "---") ++ rest)))
      ]
    ]
