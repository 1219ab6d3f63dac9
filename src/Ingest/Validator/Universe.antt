-- ===== src/Ingest/Validator/Universe.antt =====
-- The pages that there are after a bundle, by the last operation on each.
use qpedia.Prelude.{
  Bool, false, sym, ap, ◌∙◌, ◌≡◌, refl, true, Bool-cases, inl, inr, ◌⊎◌, Option, none, some, List,
  [], ◌∷◌, if◌then◌else◌, arith,
}
use qpedia.Text.{Text, contains_text, text_eq}
use qpedia.Text.Laws.{text_eq_iff}
use qpedia.Core.Wiki.{DiffOp, create, patch, delete, link}
use qpedia.Ingest.Validator.{post_universe, remove_path}

-- What an operation says of a page: it makes it, or deletes it.
abbrev pub said : Text → DiffOp → Option Bool
said page (create path content rationale) = if text_eq page path then some true else none
said page (delete path rationale) = if text_eq page path then some false else none
said page (patch path new_content rationale) = none
said page (link from to kind) = none

abbrev pub or_first : Option Bool → Option Bool → Option Bool
or_first (some later) first = some later
or_first none first = first

-- The last operation that makes or deletes the page.
abbrev pub last_word : Text → List DiffOp → Option Bool
last_word page [] = none
last_word page (op ∷ ops) = or_first (last_word page ops) (said page op)

-- The page is there after the bundle: it is made and not deleted after that, or it is there before and
-- the bundle neither makes nor deletes it.
abbrev pub WillExist : List DiffOp → List Text → Text → Type 0
WillExist ops existing page =
    (last_word page ops ≡ some true)
    ⊎ ((last_word page ops ≡ none) × (contains_text existing page ≡ true))

contains-remove_path :
    (path page : Text) (paths : List Text)
    → contains_text (remove_path path paths) page
      ≡ (if text_eq page path then false else contains_text paths page)
unfolding contains_text remove_path
contains-remove_path path page [] = ground arith
contains-remove_path path page (p ∷ paths) = ground (
  arith,
  contains-remove_path path page paths,
  text_eq_iff path p,
  text_eq_iff page path,
  text_eq_iff page p,
)

-- A page is there if the last word on it says so, or else if it was there.
abbrev settled : Option Bool → Bool → Bool
settled none before = before
settled (some made) before = made

settled-or_first :
    (later first : Option Bool) (before : Bool)
    → settled (or_first later first) before ≡ settled later (settled first before)
settled-or_first (some later) first before = refl
settled-or_first none first before = refl

after : DiffOp → List Text → List Text
after (create path content rationale) paths = path ∷ paths
after (delete path rationale) paths = remove_path path paths
after (patch path new_content rationale) paths = paths
after (link from to kind) paths = paths

post_universe-cons :
    (op : DiffOp) (ops : List DiffOp) (paths : List Text)
    → post_universe (op ∷ ops) paths ≡ post_universe ops (after op paths)
unfolding post_universe after
post_universe-cons (create path content rationale) ops paths = refl
post_universe-cons (delete path rationale) ops paths = refl
post_universe-cons (patch path new_content rationale) ops paths = refl
post_universe-cons (link from to kind) ops paths = refl

contains-after :
    (page : Text) (op : DiffOp) (paths : List Text)
    → contains_text (after op paths) page ≡ settled (said page op) (contains_text paths page)
unfolding after
contains-after page (create path content rationale) paths = elim (Bool-cases (text_eq page path)) [
  | inl e ↦ unfold contains_text in rw e refl
  | inr e ↦ unfold contains_text in rw e refl
]
contains-after page (delete path rationale) paths = elim (Bool-cases (text_eq page path)) [
  | inl e ↦ rw (contains-remove_path path page paths, e) refl
  | inr e ↦ rw (contains-remove_path path page paths, e) refl
]
contains-after page (patch path new_content rationale) paths = refl
contains-after page (link from to kind) paths = refl

contains-post_universe :
    (page : Text) (ops : List DiffOp) (existing : List Text)
    → contains_text (post_universe ops existing) page
      ≡ settled (last_word page ops) (contains_text existing page)
unfolding post_universe
contains-post_universe page [] existing = refl
contains-post_universe page (op ∷ ops) existing =
    ap (λ us. contains_text us page) (post_universe-cons op ops existing)
    ∙ contains-post_universe page ops (after op existing)
    ∙ ap (settled (last_word page ops)) (contains-after page op existing)
    ∙ sym (settled-or_first (last_word page ops) (said page op) (contains_text existing page))

pub settled-WillExist :
    (ops : List DiffOp) (existing : List Text) (page : Text)
    → contains_text (post_universe ops existing) page ≡ true
    → WillExist ops existing page
settled-WillExist ops existing page h =
    go (last_word page ops) refl (sym (contains-post_universe page ops existing) ∙ h)
  where
    go :
        (w : Option Bool)
        → last_word page ops ≡ w
        → settled (last_word page ops) (contains_text existing page) ≡ true
        → WillExist ops existing page
    go none e k = inr (e, sym (ap (λ o. settled o (contains_text existing page)) e) ∙ k)
    go (some true) e k = inl e
    go (some false) e k = cc (sym (ap (λ o. settled o (contains_text existing page)) e) ∙ k)
