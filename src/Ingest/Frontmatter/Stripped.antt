-- ===== src/Ingest/Frontmatter/Stripped.antt =====
-- Lines without their carriage return, and the line that lists sources.
use qpedia.Prelude.{
  ℕ, ◌≡◌, ◌≢◌, refl, sym, ap, subst, ◌∙◌, ◌⊎◌, inl, inr, true, false, [], ◌∷◌, ◌++◌, arith,
  Bool-cases,
}
use qpedia.Text.{Text, codes, is_whitespace, starts_with, strip_cr}
use qpedia.Text.Split.{HasNone}
use qpedia.Text.Joined.{starts_with_longer, starts_with_shorter}
use qpedia.Ingest.Frontmatter.{is_ids_line}

-- A carriage return is stripped, or there is none.
pub strip_cr-cases : (s : Text) → (strip_cr s ≡ s) ⊎ (s ≡ strip_cr s ++ 13 ∷ [])
strip_cr-cases [] = inl refl
strip_cr-cases (c ∷ []) = ground arith
strip_cr-cases (c ∷ d ∷ s) = elim (strip_cr-cases (d ∷ s)) [
  | inl e ↦ inl (ap (◌∷◌ c) e)
  | inr e ↦ inr (ap (◌∷◌ c) e)
]

pub strip_cr-snoc : (s : Text) (c : ℕ) → c ≢ 13 → strip_cr (s ++ c ∷ []) ≡ s ++ c ∷ []
strip_cr-snoc [] c h = ground arith
strip_cr-snoc (d ∷ []) c h = ap (◌∷◌ d) (strip_cr-snoc [] c h)
strip_cr-snoc (d ∷ e ∷ s) c h = ap (◌∷◌ d) (strip_cr-snoc (e ∷ s) c h)

pub strip_cr-HasNone : (sep : ℕ) (s : Text) → HasNone sep s → HasNone sep (strip_cr s)
strip_cr-HasNone sep [] h = tt
strip_cr-HasNone sep (c ∷ []) h = ground arith
strip_cr-HasNone sep (c ∷ d ∷ s) (h, k) = (h, strip_cr-HasNone sep (d ∷ s) k)

-- A line with its end cut off is no list, if it was none.
pub ids_line_of_space :
    (c : ℕ) (s : Text) → is_whitespace c ≡ true → is_ids_line (c ∷ s) ≡ is_ids_line s
unfolding is_ids_line
ids_line_of_space c s e = rw e

pub ids_line_of_other :
    (c : ℕ) (s : Text)
    → is_whitespace c ≡ false
    → is_ids_line (c ∷ s) ≡ starts_with (codes "source_ids:") (c ∷ s)
unfolding is_ids_line
ids_line_of_other c s e = rw e

pub no_ids_line : is_ids_line [] ≡ false
unfolding is_ids_line
no_ids_line = refl

pub is_ids_line_longer : (s t : Text) → is_ids_line s ≡ true → is_ids_line (s ++ t) ≡ true
is_ids_line_longer [] t h = cc (sym no_ids_line ∙ h)
is_ids_line_longer (c ∷ s) t h = elim (Bool-cases (is_whitespace c)) [
  | inl e ↦
      ids_line_of_space c (s ++ t) e ∙ is_ids_line_longer s t (sym (ids_line_of_space c s e) ∙ h)
  | inr e ↦
      ids_line_of_other c (s ++ t) e
      ∙ starts_with_longer (codes "source_ids:") (c ∷ s) t (sym (ids_line_of_other c s e) ∙ h)
]

pub not_longer : (s t : Text) → is_ids_line (s ++ t) ≡ false → is_ids_line s ≡ false
not_longer s t h = elim (Bool-cases (is_ids_line s)) [
  | inl e ↦ cc (sym (is_ids_line_longer s t e) ∙ h)
  | inr e ↦ e
]

pub strip_cr-ids_line : (s : Text) → is_ids_line s ≡ false → is_ids_line (strip_cr s) ≡ false
strip_cr-ids_line s h = elim (strip_cr-cases s) [
  | inl e ↦ rw e h
  | inr e ↦ not_longer (strip_cr s) (13 ∷ []) (subst (λ x. is_ids_line x ≡ false) e h)
]

pub strip_cr-NoneStarts :
    (p s : Text) → starts_with p s ≡ false → starts_with p (strip_cr s) ≡ false
strip_cr-NoneStarts p s h = elim (strip_cr-cases s) [
  | inl e ↦ rw e h
  | inr e ↦ starts_with_shorter p (strip_cr s) (13 ∷ []) (subst (λ x. starts_with p x ≡ false) e h)
]
