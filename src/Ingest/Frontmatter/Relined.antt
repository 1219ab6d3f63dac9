-- ===== src/Ingest/Frontmatter/Relined.antt =====
-- Lines that are joined by newlines and read as lines again.
use qpedia.Prelude.{
  ℕ, ◌≡◌, refl, sym, ap, subst, ◌∙◌, ◌⊎◌, inl, inr, true, false, some, List, [], ◌∷◌, ◌++◌,
  append_assoc, append-nil, map, any, arith, All, All-append, Bool-cases, Option-cases,
}
use qpedia.Text.{
  Text, codes, newline, is_whitespace, starts_with, split_once, strip_prefix, trim_start, split,
  split_head, split_tail, lines, strip_cr, chomp, join,
}
use qpedia.Text.Split.{HasNone, split-HasNone}
use qpedia.Text.Joined.{NoneStarts, split-join, split_once-NoneStarts}
use qpedia.Retriever.Access.{listed, ids_in_lines}
use qpedia.Ingest.Frontmatter.{leading_ws, ids_line, is_ids_line, new_line, new_fm_lines}
use qpedia.Ingest.Frontmatter.Quoting.{IsPlain, id_list, HasNone-append, ids_line-HasNone}
use qpedia.Ingest.Frontmatter.Lines.{ids_of_other, ids_step_none, ids_step_some}
use qpedia.Ingest.Frontmatter.Stripped.{
  strip_cr-snoc, strip_cr-HasNone, no_ids_line, strip_cr-ids_line, strip_cr-NoneStarts,
}

All-chomp :
    (P : Text → Type 0) (parts : List Text)
    → ((s : Text) → P s → P (strip_cr s))
    → All P parts
    → All P (chomp parts)
All-chomp P [] f h = tt
All-chomp P ([] ∷ []) f h = tt
All-chomp P ((c ∷ s) ∷ []) f h = h
All-chomp P (s ∷ t ∷ parts) f (h, hs) = (f s h, All-chomp P (t ∷ parts) f hs)

-- Reading lines strips nothing from this line that matters.
abbrev IsStable : Text → Type 0
IsStable s = (is_ids_line s ≡ false) ⊎ (strip_cr s ≡ s)

ids_in_lines_ext :
    (line : Text) (more more' : List Text)
    → ids_in_lines more ≡ ids_in_lines more'
    → ids_in_lines (line ∷ more) ≡ ids_in_lines (line ∷ more')
ids_in_lines_ext line more more' h =
    elim (Option-cases (strip_prefix (codes "source_ids:") (trim_start line))) [
      | inl e ↦ ids_step_none line more e ∙ h ∙ sym (ids_step_none line more' e)
      | inr (rest, e) ↦
          ids_step_some line rest more e
          ∙ ap (λ xs. listed rest ++ xs) h
          ∙ sym (ids_step_some line rest more' e)
    ]

ids_in_lines-chomp :
    (parts : List Text) → All IsStable parts → ids_in_lines (chomp parts) ≡ ids_in_lines parts
ids_in_lines-chomp [] h = refl
ids_in_lines-chomp ([] ∷ []) h = sym (ids_of_other [] [] no_ids_line)
ids_in_lines-chomp ((c ∷ s) ∷ []) h = refl
ids_in_lines-chomp (s ∷ t ∷ parts) (inl other, hs) =
    ids_of_other (strip_cr s) (chomp (t ∷ parts)) (strip_cr-ids_line s other)
    ∙ ids_in_lines-chomp (t ∷ parts) hs
    ∙ sym (ids_of_other s (t ∷ parts) other)
ids_in_lines-chomp (s ∷ t ∷ parts) (inr same, hs) =
    ap (λ l. ids_in_lines (l ∷ chomp (t ∷ parts))) same
    ∙ ids_in_lines_ext s (chomp (t ∷ parts)) (t ∷ parts) (ids_in_lines-chomp (t ∷ parts) hs)

-- The new lines have what it takes to be read again.
abbrev NoLaterStarts : Text → List Text → Type 0
NoLaterStarts p [] = Unit {0}
NoLaterStarts p (s ∷ parts) = NoneStarts p parts

pub record IsLines (parts : List Text) : Type 0 where
  pub one_line : All (HasNone newline) parts
  pub stable : All IsStable parts
  pub no_fence : NoLaterStarts (codes "---") parts

lines_lem : (s : Text) → lines s ≡ chomp (split newline s)
unfolding lines
lines_lem s = refl

pub ids_in_lines-join :
    (s : Text) (parts : List Text)
    → IsLines (s ∷ parts)
    → ids_in_lines (lines (join (codes "\n") (s ∷ parts))) ≡ ids_in_lines (s ∷ parts)
ids_in_lines-join s parts h =
    ap ids_in_lines (lines_lem (join (codes "\n") (s ∷ parts)))
    ∙ ap (λ l. ids_in_lines (chomp l)) (split-join newline s parts h.one_line)
    ∙ ids_in_lines-chomp (s ∷ parts) h.stable

lines-HasNone : (s : Text) → All (HasNone newline) (lines s)
lines-HasNone s =
    subst (λ l. All (HasNone newline) l) (sym (lines_lem s))
      (All-chomp (HasNone newline) (split newline s) (λ t h. strip_cr-HasNone newline t h)
        (split-HasNone newline s))

chomp-NoLaterStarts :
    (p s : Text) (parts : List Text) → NoneStarts p parts → NoLaterStarts p (chomp (s ∷ parts))
chomp-NoLaterStarts p [] [] h = tt
chomp-NoLaterStarts p (c ∷ s) [] h = tt
chomp-NoLaterStarts p s (t ∷ parts) h =
    All-chomp (λ x. starts_with p x ≡ false) (t ∷ parts) (λ x k. strip_cr-NoneStarts p x k) h

split_lem : (s : Text) → split newline s ≡ split_head newline s ∷ split_tail newline s
unfolding split
split_lem s = refl

-- The text before the first closing fence has no line with a fence, but perhaps its first.
lines-NoLaterStarts :
    (s fm rest : Text)
    → split_once (10 ∷ codes "---") s ≡ some (fm, rest)
    → NoLaterStarts (codes "---") (lines fm)
lines-NoLaterStarts s fm rest h =
    subst (λ l. NoLaterStarts (codes "---") l)
      (sym (lines_lem fm ∙ ap (λ l. chomp l) (split_lem fm)))
      (chomp-NoLaterStarts (codes "---") (split_head newline fm) (split_tail newline fm)
        (split_once-NoneStarts newline (codes "---") s fm rest h))

leading_ws-HasNone : (sep : ℕ) (s : Text) → HasNone sep s → HasNone sep (leading_ws s)
unfolding leading_ws
leading_ws-HasNone sep [] h = tt
leading_ws-HasNone sep (c ∷ s) (h, hs) = elim (Bool-cases (is_whitespace c)) [
  | inl e ↦ rw e (h, leading_ws-HasNone sep s hs)
  | inr e ↦ rw e tt
]

space_is_no_fence :
    (c : ℕ) (s : Text) → is_whitespace c ≡ true → starts_with (codes "---") (c ∷ s) ≡ false
unfolding starts_with
space_is_no_fence c s h = ground arith

-- Neither white space nor a list is a fence.
leading_ws-starts :
    (s t : Text)
    → starts_with (codes "---") t ≡ false
    → starts_with (codes "---") (leading_ws s ++ t) ≡ false
unfolding leading_ws
leading_ws-starts [] t h = h
leading_ws-starts (c ∷ s) t h = elim (Bool-cases (is_whitespace c)) [
  | inl e ↦ rw e (space_is_no_fence c (leading_ws s ++ t) e)
  | inr e ↦ rw e h
]

ids_line-IsStable :
    (s : Text) (ids : List Text)
    → strip_cr (leading_ws s ++ ids_line ids) ≡ leading_ws s ++ ids_line ids
unfolding ids_line
ids_line-IsStable s ids =
    let front = codes "source_ids: [" ++ id_list ids in
    let e : leading_ws s ++ ids_line ids ≡ (leading_ws s ++ front) ++ codes "]" =
      sym (append_assoc (leading_ws s) front (codes "]")) in
    ap strip_cr e ∙ strip_cr-snoc (leading_ws s ++ front) b']' (omega arith) ∙ sym e

module _ (ids : List Text) (plain : All IsPlain ids) where
  new_line-cases :
      (s : Text)
      → ((is_ids_line s ≡ true) × (new_line ids s ≡ leading_ws s ++ ids_line ids))
        ⊎ ((is_ids_line s ≡ false) × (new_line ids s ≡ s))
  unfolding new_line
  new_line-cases s = elim (Bool-cases (is_ids_line s)) [
    | inl e ↦ inl (e, rw e)
    | inr e ↦ inr (e, rw e)
  ]

  new_line-All :
      (P : Text → Type 0)
      → ((s : Text) → P s → P (leading_ws s ++ ids_line ids))
      → (old : List Text) → All P old
      → All P (map (new_line ids) old)
  new_line-All P f [] h = tt
  new_line-All P f (s ∷ old) (h, hs) = (
    elim (new_line-cases s) [
      | inl (_, e) ↦ subst P (sym e) (f s h)
      | inr (_, e) ↦ subst P (sym e) h
    ],
    new_line-All P f old hs,
  )

  ids_line-one_line :
      (s : Text) → HasNone newline s → HasNone newline (leading_ws s ++ ids_line ids)
  ids_line-one_line s h =
      HasNone-append newline (leading_ws s) (ids_line ids) (leading_ws-HasNone newline s h)
        (ids_line-HasNone ids plain)

  ids_line-no_fence : (s : Text) → starts_with (codes "---") (leading_ws s ++ ids_line ids) ≡ false
  ids_line-no_fence s = leading_ws-starts s (ids_line ids) (unfold ids_line starts_with in refl)

  new_lines-IsStable : (old : List Text) → All IsStable (map (new_line ids) old)
  new_lines-IsStable [] = tt
  new_lines-IsStable (s ∷ old) = (
    elim (new_line-cases s) [
      | inl (_, e) ↦ inr (subst (λ t. strip_cr t ≡ t) (sym e) (ids_line-IsStable s ids))
      | inr (h, e) ↦ inl (subst (λ t. is_ids_line t ≡ false) (sym e) h)
    ],
    new_lines-IsStable old,
  )

  new_lines-NoLaterStarts :
      (old more : List Text)
      → NoLaterStarts (codes "---") old
      → NoneStarts (codes "---") more
      → NoLaterStarts (codes "---") (map (new_line ids) old ++ more)
  new_lines-NoLaterStarts [] [] h k = tt
  new_lines-NoLaterStarts [] (s ∷ more) h (_, k) = k
  new_lines-NoLaterStarts (s ∷ old) more h k =
      All-append (λ t. starts_with (codes "---") t ≡ false) (map (new_line ids) old) more
        (new_line-All (λ t. starts_with (codes "---") t ≡ false) (λ t _. ids_line-no_fence t) old h)
        k

  -- The new lines of a frontmatter's lines.
  relined :
      (old more : List Text)
      → All (HasNone newline) old
      → NoLaterStarts (codes "---") old
      → All (HasNone newline) more
      → All IsStable more
      → NoneStarts (codes "---") more
      → IsLines (map (new_line ids) old ++ more)
  relined old more h n hm sm nm = record {
    one_line =
        All-append (HasNone newline) (map (new_line ids) old) more
          (new_line-All (HasNone newline) ids_line-one_line old h) hm;
    stable = All-append IsStable (map (new_line ids) old) more (new_lines-IsStable old) sm;
    no_fence = new_lines-NoLaterStarts old more n nm;
  }

  pub new_fm_lines-IsLines :
      (s fm rest : Text)
      → split_once (10 ∷ codes "---") s ≡ some (fm, rest)
      → IsLines (new_fm_lines ids (lines fm))
  unfolding new_fm_lines
  new_fm_lines-IsLines s fm rest h =
      let one = lines-HasNone fm in
      let fences = lines-NoLaterStarts s fm rest h in
      elim (Bool-cases (any is_ids_line (lines fm))) [
        | inl e ↦ rw e (
            subst IsLines (append-nil (map (new_line ids) (lines fm)))
              (relined (lines fm) [] one fences tt tt tt))
        | inr e ↦ rw e (
            relined (lines fm) (ids_line ids ∷ []) one fences (ids_line-HasNone ids plain, tt)
              (inr (ids_line-IsStable [] ids), tt) (ids_line-no_fence [], tt))
      ]
