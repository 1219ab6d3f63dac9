-- ===== src/Ingest/Remove/Index.antt =====
-- The lines of index.md that a remove job keeps, by the links that the validator reads in them.
use qpedia.Prelude.{
  ℕ, zero, suc, ◌≡◌, refl, ap, inl, inr, Bool, not, List, [], ◌∷◌, ◌++◌, any, filter, length,
  Bool-cases, Option-cases,
}
use qpedia.Text.{Text, codes, contains_text, split_once, split_head, trim, lines, join}
use qpedia.Ingest.Validator.{links_from, extract_wikilinks}
use qpedia.Ingest.Remove.{keep_from, keep, remove_wikilinks_from_index}

-- A link whose page is deleted.
abbrev pub is_dead : List Text → Text → Bool
is_dead deleted target = contains_text deleted (split_head b'#' target)

abbrev pub has_dead : List Text → Text → Bool
has_dead deleted line = any (is_dead deleted) (extract_wikilinks line)

keep_from-links_from :
    (fuel : ℕ) (deleted : List Text) (s : Text)
    → keep_from fuel deleted s ≡ not (any (is_dead deleted) (links_from fuel s))
unfolding keep_from links_from
keep_from-links_from zero deleted s = refl
keep_from-links_from (suc fuel) deleted s = elim (Option-cases (split_once (codes "[[") s)) [
  | inl e ↦ rw (keep_from, links_from, e) refl
  | inr ((before, after), e) ↦ elim (Option-cases (split_once (codes "]]") after)) [
    | inl k ↦ rw (keep_from, links_from, e, k) refl
    | inr ((target, rest), k) ↦
        elim (Bool-cases (contains_text deleted (split_head b'#' (trim target)))) [
          | inl d ↦ rw (keep_from, links_from, e, k, d) refl
          | inr d ↦ rw (keep_from, links_from, e, k, d) (keep_from-links_from fuel deleted rest)
        ]
  ]
]

filter-ext :
    (p q : Text → Bool) (xs : List Text) → ((x : Text) → p x ≡ q x) → filter p xs ≡ filter q xs
filter-ext p q [] h = refl
filter-ext p q (x ∷ xs) h = elim (Bool-cases (q x)) [
  | inl e ↦ rw (filter, h x, e) (ap (◌∷◌ x) (filter-ext p q xs h))
  | inr e ↦ rw (filter, h x, e) (filter-ext p q xs h)
]

keep-has_dead :
    (deleted : List Text) (line : Text) → keep deleted line ≡ not (has_dead deleted line)
unfolding keep extract_wikilinks
keep-has_dead deleted line = keep_from-links_from (length line) deleted line

-- The new index has the lines of the old one in which the validator's `extract_wikilinks` finds no link
-- to a deleted page, in their order, with newlines between them and one at the end, which is there also
-- if no line is left. A line with such a link is gone as a whole, with the other links and the text
-- that it had.
pub remove_wikilinks_from_index-extract_wikilinks :
    (content : Text) (deleted : List Text)
    → remove_wikilinks_from_index content deleted
      ≡ join (codes "\n") (filter (λ line. not (has_dead deleted line)) (lines content))
        ++ codes "\n"
unfolding remove_wikilinks_from_index
remove_wikilinks_from_index-extract_wikilinks content deleted =
    ap (λ ls. join (codes "\n") ls ++ codes "\n")
      (filter-ext (keep deleted) (λ line. not (has_dead deleted line)) (lines content)
        (λ line. keep-has_dead deleted line))
