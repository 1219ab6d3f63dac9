-- ===== src/Ingest/Validator/Links.antt =====
-- crates/qpedia-ingest/src/validator.rs, `extract_wikilinks`: the loop without a bound on its rounds.
use qpedia.Prelude.{
  ℕ, zero, suc, ◌≤◌, ◌≡◌, refl, ap, ◌∙◌, inl, inr, none, some, Option-cases, List, [], ◌∷◌, ◌++◌,
  length, All, All-map, arith,
}
use qpedia.Text.{Text, codes, split_once, trim}
use qpedia.Text.Pieces.{split_once-eq-some, split_once-shorter}
use qpedia.Text.Brackets.{IsLinkIn, IsLinkIn-later, regroup}
use qpedia.Ingest.Validator.{links_from, extract_wikilinks}

-- The rounds of the loop on a text, up to the one in which it ends, and what they push.
pub data Finds : Text → List Text → Type 0 where
  no_open : {s : Text} → split_once (codes "[[") s ≡ none → Finds s []
  no_close :
      {s before after : Text}
      → split_once (codes "[[") s ≡ some (before, after)
      → split_once (codes "]]") after ≡ none
      → Finds s []
  found :
      {s before after inside rest : Text}
      → {links : List Text} → split_once (codes "[[") s ≡ some (before, after)
      → split_once (codes "]]") after ≡ some (inside, rest)
      → Finds rest links
      → Finds s (trim inside ∷ links)

-- With as much fuel as there are characters left the search sees the end of the loop.
links_from-Finds : (fuel : ℕ) (s : Text) → length s ≤ fuel → Finds s (links_from fuel s)
unfolding links_from
links_from-Finds zero [] h = no_open refl
links_from-Finds zero (c ∷ s) h = ground (arith, h)
links_from-Finds (suc fuel) s h = elim (Option-cases (split_once (codes "[[") s)) [
  | inl e ↦ rw (links_from, e) (no_open e)
  | inr ((before, after), e) ↦ elim (Option-cases (split_once (codes "]]") after)) [
    | inl t ↦ rw (links_from, e, t) (no_close e t)
    | inr ((inside, rest), t) ↦
        rw (links_from, e, t)
          (found e t (
            links_from-Finds fuel rest (
              omega (
                arith,
                h,
                split_once-shorter b'[' (codes "[") s before after e,
                split_once-shorter b']' (codes "]") after inside rest t,
              ))))
  ]
]

bracketed_link :
    (s before after inside rest : Text)
    → split_once (codes "[[") s ≡ some (before, after)
    → split_once (codes "]]") after ≡ some (inside, rest)
    → s ≡ before ++ (codes "[[" ++ (inside ++ (codes "]]" ++ rest)))
bracketed_link s before after inside rest e t =
    split_once-eq-some (codes "[[") s before after e
    ∙ ap (λ r. before ++ (codes "[[" ++ r)) (split_once-eq-some (codes "]]") after inside rest t)

Finds-IsLinkIn : {s : Text} → {links : List Text} → Finds s links → All (IsLinkIn s) links
Finds-IsLinkIn (no_open e) = tt
Finds-IsLinkIn (no_close e t) = tt
Finds-IsLinkIn {s}
      (found {before = before} {after = after} {inside = inside} {rest = rest} {links = links} e t
        more) =
    let here = bracketed_link s before after inside rest e t in
    (
      record { before = before; inside = inside; after = rest; bracketed = here; trimmed = refl },
      All-map
          (IsLinkIn-later s (before ++ (codes "[[" ++ (inside ++ codes "]]"))) rest
            (here ∙ regroup before inside rest))
          links (Finds-IsLinkIn more),
    )

-- The search for links comes to its end, whatever is in the page, and the links that are returned are
-- those that its rounds push, in their order. Each of them is what stands between two brackets of the
-- page on either side, without the white space around it.
pub extract_wikilinks-Finds :
    (content : Text)
    → Finds content (extract_wikilinks content) × All (IsLinkIn content) (extract_wikilinks content)
unfolding extract_wikilinks
extract_wikilinks-Finds content =
    let scanned = links_from-Finds (length content) content (omega arith) in
    (scanned, Finds-IsLinkIn scanned)
