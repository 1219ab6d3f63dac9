-- ===== src/Ingest/Frontmatter/Lines.antt =====
-- The lines of a frontmatter that is rewritten: what they list, and that they are its lines.
use qpedia.Prelude.{
  ℕ, zero, suc, max, ◌≡◌, refl, sym, ap, ◌∙◌, inl, inr, true, false, none, some, List, [], ◌∷◌,
  ◌++◌, append_assoc, append-nil, map, any, arith, if◌then◌else◌, All, Bool-cases, Option-cases,
}
use qpedia.Text.{Text, codes, is_whitespace, starts_with, strip_prefix, trim_start}
use qpedia.Text.Split.{strip_prefix-append}
use qpedia.Retriever.Access.{listed, ids_in_lines}
use qpedia.Ingest.Frontmatter.{leading_ws, ids_line, is_ids_line, new_line, new_fm_lines}
use qpedia.Ingest.Frontmatter.Quoting.{IsPlain, id_list, listed-id_list}

-- The list as often as there are lines for it.
abbrev pub copies : ℕ → List Text → List Text
copies zero ids = []
copies (suc n) ids = ids ++ copies n ids

unfoldable pub count_ids_lines : List Text → ℕ
unfolding is_ids_line
count_ids_lines [] = 0
count_ids_lines (line ∷ more) =
    let rest = count_ids_lines more in if is_ids_line line then suc rest else rest

pub trim_start-leading_ws :
    (line s : Text) (c : ℕ)
    → is_whitespace c ≡ false
    → trim_start (leading_ws line ++ (c ∷ s)) ≡ c ∷ s
unfolding trim_start leading_ws
trim_start-leading_ws [] s c h = rw h
trim_start-leading_ws (d ∷ line) s c h = elim (Bool-cases (is_whitespace d)) [
  | inl e ↦ rw (e, e) (trim_start-leading_ws line s c h)
  | inr e ↦ rw (e, h)
]

-- What one line adds.
pub ids_step_none :
    (line : Text) (more : List Text)
    → strip_prefix (codes "source_ids:") (trim_start line) ≡ none
    → ids_in_lines (line ∷ more) ≡ ids_in_lines more
unfolding ids_in_lines
ids_step_none line more e = rw (ids_in_lines, e)

pub ids_step_some :
    (line rest : Text) (more : List Text)
    → strip_prefix (codes "source_ids:") (trim_start line) ≡ some rest
    → ids_in_lines (line ∷ more) ≡ listed rest ++ ids_in_lines more
unfolding ids_in_lines
ids_step_some line rest more e = rw (ids_in_lines, e)

strip_prefix_of_not : (p s : Text) → starts_with p s ≡ false → strip_prefix p s ≡ none
unfolding starts_with
strip_prefix_of_not p s h = elim (Option-cases (strip_prefix p s)) [
  | inl e ↦ e
  | inr (t, e) ↦ cc (rw (starts_with, e) at h)
]

pub ids_of_other :
    (line : Text) (more : List Text)
    → is_ids_line line ≡ false
    → ids_in_lines (line ∷ more) ≡ ids_in_lines more
ids_of_other line more h =
    ids_step_none line more
      (strip_prefix_of_not (codes "source_ids:") (trim_start line) (unfold is_ids_line in h))

ids_line_lem :
    (ids : List Text)
    → ids_line ids ≡ codes "source_ids:" ++ (codes " [" ++ (id_list ids ++ codes "]"))
unfolding ids_line
ids_line_lem ids = refl

trim_start-new :
    (line : Text) (ids : List Text) → trim_start (leading_ws line ++ ids_line ids) ≡ ids_line ids
unfolding ids_line
trim_start-new line ids =
    trim_start-leading_ws line (codes "ource_ids: [" ++ (id_list ids ++ codes "]")) b's' refl

ids_of_new :
    (ids : List Text) (line : Text) (more : List Text)
    → All IsPlain ids
    → ids_in_lines ((leading_ws line ++ ids_line ids) ∷ more) ≡ ids ++ ids_in_lines more
ids_of_new ids line more h =
    let rest = codes " [" ++ (id_list ids ++ codes "]") in
    ids_step_some (leading_ws line ++ ids_line ids) rest more (
      ap (strip_prefix (codes "source_ids:")) (trim_start-new line ids ∙ ids_line_lem ids)
      ∙ strip_prefix-append (codes "source_ids:") rest)
    ∙ ap (λ xs. xs ++ ids_in_lines more) (listed-id_list ids h)

ids_in_lines-map :
    (ids : List Text) (old more : List Text)
    → All IsPlain ids
    → ids_in_lines (map (new_line ids) old ++ more)
      ≡ copies (count_ids_lines old) ids ++ ids_in_lines more
unfolding new_line count_ids_lines
ids_in_lines-map ids [] more h = refl
ids_in_lines-map ids (line ∷ old) more h = elim (Bool-cases (is_ids_line line)) [
  | inl e ↦ rw e (
      ids_of_new ids line (map (new_line ids) old ++ more) h
      ∙ ap (λ xs. ids ++ xs) (ids_in_lines-map ids old more h)
      ∙ sym (append_assoc ids (copies (count_ids_lines old) ids) (ids_in_lines more)))
  | inr e ↦
      rw e (ids_of_other line (map (new_line ids) old ++ more) e ∙ ids_in_lines-map ids old more h)
]

ids_of_new_last : (ids : List Text) → All IsPlain ids → ids_in_lines (ids_line ids ∷ []) ≡ ids ++ []
ids_of_new_last ids h = unfold leading_ws ids_in_lines in ids_of_new ids [] [] h

count_of_none : (old : List Text) → any is_ids_line old ≡ false → count_ids_lines old ≡ 0
unfolding count_ids_lines
count_of_none [] h = refl
count_of_none (line ∷ old) h = ground (arith, count_of_none old)

count_of_some :
    (old : List Text)
    → any is_ids_line old ≡ true
    → max 1 (count_ids_lines old) ≡ count_ids_lines old
unfolding count_ids_lines
count_of_some [] h = cc
count_of_some (line ∷ old) h = ground (arith, count_of_some old)

-- The new lines list the identifiers, once for each line that did before, and at least once.
pub ids_in_lines-new_fm_lines :
    (ids old : List Text)
    → All IsPlain ids
    → ids_in_lines (new_fm_lines ids old) ≡ copies (max 1 (count_ids_lines old)) ids
unfolding new_fm_lines
ids_in_lines-new_fm_lines ids old h = elim (Bool-cases (any is_ids_line old)) [
  | inl e ↦
      rw (e, count_of_some old e)
        (ap ids_in_lines (sym (append-nil (map (new_line ids) old)))
          ∙ ids_in_lines-map ids old [] h
          ∙ unfold ids_in_lines in append-nil (copies (count_ids_lines old) ids))
  | inr e ↦
      rw (e, count_of_none old e)
        (ids_in_lines-map ids old (ids_line ids ∷ []) h
          ∙ rw (count_of_none old e) (ids_of_new_last ids h))
]
