-- ===== src/Lint/Links.antt =====
-- The counts of links and the lists that the linter makes, as tests on their members.
use qpedia.Prelude.{
  ℕ, suc, ◌≡◌, refl, ap, ◌∙◌, inl, inr, Bool, false, not, ◌&&◌, ◌||◌, List, [], ◌∷◌, ◌++◌, arith,
  filter, any, ◌==◌, if◌then◌else◌, Bool-cases,
}
use qpedia.Text.{Text, text_eq, contains_text}
use qpedia.Text.Laws.{text_eq→eq, text_eq_refl, text_eq_iff}
use qpedia.Retriever.Links.{path_only}
use qpedia.Lint.{BrokenLink, bump, links_to, bump_all, broken_in, dedup}

links_to-bump :
    (x y : Text) (inbound : List (Text × ℕ))
    → links_to x (bump y inbound)
      ≡ (if text_eq y x then suc (links_to x inbound) else links_to x inbound)
unfolding links_to bump
links_to-bump x y [] = ground arith
links_to-bump x y ((p, n) ∷ inbound) =
    ground (arith, links_to-bump x y inbound, text_eq_iff p x, text_eq_iff p y, text_eq_iff y x)

-- Some target of the list is this page.
abbrev pub has_target : List Text → Text → Bool
has_target targets x = any (λ t. text_eq (path_only t) x) targets

pub links_to-bump_all :
    (x : Text) (targets : List Text) (inbound : List (Text × ℕ))
    → (links_to x (bump_all targets inbound) == 0)
      ≡ (not (has_target targets x) && links_to x inbound == 0)
unfolding bump_all
links_to-bump_all x [] inbound = refl
links_to-bump_all x (t ∷ targets) inbound = ground (
  arith,
  links_to-bump x (path_only t) (bump_all targets inbound),
  links_to-bump_all x targets inbound,
)

-- The page and target are among the broken links.
abbrev pub has_broken : Text → Text → List BrokenLink → Bool
has_broken page target = any (λ l. text_eq l.page page && text_eq l.target target)

pub has_broken-append :
    (page target : Text) (xs ys : List BrokenLink)
    → has_broken page target (xs ++ ys) ≡ (has_broken page target xs || has_broken page target ys)
has_broken-append page target [] ys = refl
has_broken-append page target (x ∷ xs) ys = ground (arith, has_broken-append page target xs ys)

pub has_broken-broken_in :
    (pages : List Text) (path page target : Text) (targets : List Text)
    → has_broken page target (broken_in pages path targets) ≡ (
        text_eq path page
        && any (λ t. text_eq t target) targets
        && not (contains_text pages (path_only target)))
unfolding broken_in
has_broken-broken_in pages path page target [] = ground arith
has_broken-broken_in pages path page target (t ∷ targets) = elim (Bool-cases (text_eq t target)) [
  | inl e ↦
      rw (text_eq→eq t target e)
        (ground (arith, text_eq_refl target, has_broken-broken_in pages path page target targets))
  | inr e ↦ ground (arith, e, has_broken-broken_in pages path page target targets)
]

no_and : (a : Bool) {b : Bool} → b ≡ false → (a && b) ≡ false
no_and a h = ground arith

module _ (p : Text → Bool) where
  pub contains_text-filter :
      (x : Text) (xs : List Text) → contains_text (filter p xs) x ≡ (contains_text xs x && p x)
  unfolding contains_text
  contains_text-filter x [] = refl
  contains_text-filter x (y ∷ xs) = elim (Bool-cases (text_eq x y)) [
    | inl e ↦ rw (← text_eq→eq x y e) (elim (Bool-cases (p x)) [
      | inl k ↦ rw (filter, k, text_eq_refl x) refl
      | inr k ↦
          rw (filter, k, text_eq_refl x) (contains_text-filter x xs ∙ no_and (contains_text xs x) k)
    ])
    | inr e ↦ elim (Bool-cases (p y)) [
      | inl k ↦ rw (filter, k, e) (contains_text-filter x xs)
      | inr k ↦ rw (filter, k, e) (contains_text-filter x xs)
    ]
  ]

pub contains_text-dedup :
    (x : Text) (xs : List Text) → contains_text (dedup xs) x ≡ contains_text xs x
unfolding dedup contains_text
contains_text-dedup x [] = refl
contains_text-dedup x (y ∷ xs) = elim (Bool-cases (contains_text (dedup xs) y)) [
  | inl e ↦ elim (Bool-cases (text_eq x y)) [
    | inl k ↦ rw (dedup, e, k) (ap (contains_text (dedup xs)) (text_eq→eq x y k) ∙ e)
    | inr k ↦ rw (dedup, e, k) (contains_text-dedup x xs)
  ]
  | inr e ↦ rw (dedup, e) (ap (λ b. text_eq x y || b) (contains_text-dedup x xs))
]

pub contains_text-append :
    (x : Text) (xs ys : List Text)
    → contains_text (xs ++ ys) x ≡ (contains_text xs x || contains_text ys x)
unfolding contains_text
contains_text-append x [] ys = refl
contains_text-append x (y ∷ xs) ys = ground (arith, contains_text-append x xs ys)
