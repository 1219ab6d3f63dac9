-- ===== src/Ingest/Frontmatter/RoundTrip.antt =====
-- The identifiers in the frontmatter that `remove_source_id_from_frontmatter` writes.
use qpedia.Prelude.{
  ℕ, max, ◌≡◌, refl, ap, ◌∙◌, inl, inr, false, some, List, [], ◌∷◌, ◌++◌, is_empty, any, arith, All,
  Bool-cases, Option-cases,
}
use qpedia.Text.{Text, codes, newline, strip_prefix, split_once, trim_start, lines, join}
use qpedia.Text.Split.{strip_prefix-append}
use qpedia.Text.Joined.{split_once-join}
use qpedia.Retriever.Access.{frontmatter, ids_in_lines, parse_source_ids}
use qpedia.Ingest.Frontmatter.{
  extract_source_ids, leading_ws, is_ids_line, new_fm_lines, remove_source_id_from_frontmatter,
}
use qpedia.Ingest.Frontmatter.Quoting.{IsPlain}
use qpedia.Ingest.Frontmatter.Lines.{
  copies, count_ids_lines, trim_start-leading_ws, ids_in_lines-new_fm_lines,
}
use qpedia.Ingest.Frontmatter.Relined.{IsLines, ids_in_lines-join, new_fm_lines-IsLines}

-- A frontmatter is what two fences enclose.
abbrev IsFenced : Text → Text → Type 0
IsFenced content fm =
    (after : Text) × (rest : Text) × (strip_prefix (codes "---") (trim_start content) ≡ some after)
    × (split_once (10 ∷ codes "---") after ≡ some (fm, rest))

frontmatter-IsFenced : (content fm : Text) → frontmatter content ≡ some fm → IsFenced content fm
unfolding frontmatter
frontmatter-IsFenced content fm h =
    elim (Option-cases (strip_prefix (codes "---") (trim_start content))) [
      | inl e ↦ cc (rw (frontmatter, e) at h)
      | inr (after, e) ↦ elim (Option-cases (split_once (10 ∷ codes "---") after)) [
        | inl k ↦ cc (rw (frontmatter, e, k) at h)
        | inr ((fm', rest), k) ↦
            let same : fm' ≡ fm = cc (rw (frontmatter, e, k) at h) in
            (after, rest, e, k ∙ ap (λ x. some (x, rest)) same)
      ]
    ]

fenced-frontmatter :
    (content after fm rest : Text)
    → strip_prefix (codes "---") (trim_start content) ≡ some after
    → split_once (10 ∷ codes "---") after ≡ some (fm, rest)
    → frontmatter content ≡ some fm
unfolding frontmatter
fenced-frontmatter content after fm rest e k = rw (frontmatter, e, k)

-- What is written between two fences is read again.
frontmatter-fenced :
    (before s rest : Text) (parts : List Text)
    → IsLines (s ∷ parts)
    → frontmatter (
        leading_ws before
        ++ (codes "---" ++ (join (codes "\n") (s ∷ parts) ++ ((10 ∷ codes "---") ++ rest))))
      ≡ some (join (codes "\n") (s ∷ parts))
frontmatter-fenced before s rest parts h =
    let fm = join (codes "\n") (s ∷ parts) in
    let inner = fm ++ ((10 ∷ codes "---") ++ rest) in
    fenced-frontmatter (leading_ws before ++ (codes "---" ++ inner)) inner fm rest
      (ap (strip_prefix (codes "---"))
          (trim_start-leading_ws before (codes "--" ++ inner) b'-' refl)
        ∙ strip_prefix-append (codes "---") inner)
      (split_once-join newline (codes "---") s parts rest (omega arith) h.one_line h.no_fence)

ids_in_fenced :
    (before rest : Text) (parts : List Text)
    → (n : ℕ) (ids : List Text) → IsLines parts
    → is_empty parts ≡ false
    → ids_in_lines parts ≡ copies n ids
    → parse_source_ids (
        leading_ws before
        ++ (codes "---" ++ (join (codes "\n") parts ++ ((10 ∷ codes "---") ++ rest))))
      ≡ copies n ids
unfolding parse_source_ids
ids_in_fenced before rest [] n ids h e k = cc
ids_in_fenced before rest (s ∷ parts) n ids h e k =
    rw (parse_source_ids, frontmatter-fenced before s rest parts h)
      (ids_in_lines-join s parts h ∙ k)

new_fm_lines_some : (ids old : List Text) → is_empty (new_fm_lines ids old) ≡ false
unfolding new_fm_lines
new_fm_lines_some ids [] = refl
new_fm_lines_some ids (s ∷ old) = elim (Bool-cases (any is_ids_line (s ∷ old))) [
  | inl e ↦ rw e
  | inr e ↦ rw e
]

removed_lem :
    (content after fm rest : Text) (remaining : List Text)
    → strip_prefix (codes "---") (trim_start content) ≡ some after
    → split_once (10 ∷ codes "---") after ≡ some (fm, rest)
    → remove_source_id_from_frontmatter content remaining
      ≡ leading_ws content
        ++ (codes "---"
            ++ (join (codes "\n") (new_fm_lines remaining (lines fm))
                ++ ((10 ∷ codes "---") ++ rest)))
unfolding remove_source_id_from_frontmatter
removed_lem content after fm rest remaining e k = rw (remove_source_id_from_frontmatter, e, k)

-- The rewritten page lists exactly the remaining identifiers, in their order: once for each line
-- `source_ids:` that the old frontmatter had, and once if it had none. The page has a frontmatter,
-- and the identifiers are some text each, without comma, quote, apostrophe or newline.
pub extract_source_ids-remove_source_id :
    (content fm : Text) (remaining : List Text)
    → All IsPlain remaining
    → frontmatter content ≡ some fm
    → extract_source_ids (remove_source_id_from_frontmatter content remaining)
      ≡ copies (max 1 (count_ids_lines (lines fm))) remaining
unfolding extract_source_ids
extract_source_ids-remove_source_id content fm remaining plain h =
    let (after, rest, e, k) = frontmatter-IsFenced content fm h in
    ap parse_source_ids (removed_lem content after fm rest remaining e k)
    ∙ ids_in_fenced content rest (new_fm_lines remaining (lines fm))
        (max 1 (count_ids_lines (lines fm))) remaining
        (new_fm_lines-IsLines remaining plain after fm rest k)
        (new_fm_lines_some remaining (lines fm))
        (ids_in_lines-new_fm_lines remaining (lines fm) plain)
