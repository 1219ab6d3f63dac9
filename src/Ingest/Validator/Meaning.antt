-- ===== src/Ingest/Validator/Meaning.antt =====
-- What a report without errors says.
use qpedia.Prelude.{
  Bool, ◌||◌, any, Any, here, there, All-map, Option-cases, subst, ◌≡◌, ◌≢◌, refl, true, Bool-cases,
  inl, inr, ◌⊎◌, Option, none, some, List, [], ◌∷◌, ◌++◌, if◌then◌else◌, is_empty, All, arith,
}
use qpedia.Text.{
  Text, codes, contains_text, split_head, strip_prefix, trim_start, split_once, starts_with, lines,
}
use qpedia.Core.Wiki.{DiffOp, create, patch, delete, link, DiffBundle}
use qpedia.Store.WikiRepo.Checks.{ops_bytes}
use qpedia.Ingest.Validator.Universe.{WillExist, settled-WillExist}
use qpedia.Ingest.Validator.Links.{Finds, extract_wikilinks-Finds}
use qpedia.Ingest.Validator.{
  ValidationError, empty_bundle, is_system, extract_frontmatter, line_has_key, extract_wikilinks,
  post_universe, key_errors, link_errors, check_page, checked, validate_ops, validate,
}

-- What stands between `---` at the beginning and the next `---` on a new line.
abbrev pub HasFrontmatter : Text → Text → Type 0
HasFrontmatter content fm =
    (after : Text) × (rest : Text) × (strip_prefix (codes "---") (trim_start content) ≡ some after)
    × (split_once (10 ∷ codes "---") after ≡ some (fm, rest))

abbrev pub HasLine : Text → Text → Type 0
HasLine fm start = Any (λ l. starts_with start (trim_start l) ≡ true) (lines fm)

-- A system page, or one with a title and a kind in its frontmatter, all of whose links lead to pages.
abbrev pub IsSound : List DiffOp → List Text → Text → Text → Type 0
IsSound ops existing path content =
    (is_system path ≡ true)
    ⊎ (((fm : Text) × HasFrontmatter content fm
          × HasLine fm (codes "title:")
          × HasLine fm (codes "kind:"))
        × ((links : List Text) × Finds content links
            × All (λ target. WillExist ops existing (split_head b'#' target)) links))

abbrev pub IsSoundOp : List DiffOp → List Text → DiffOp → Type 0
IsSoundOp ops existing (create path content rationale) = IsSound ops existing path content
IsSoundOp ops existing (patch path new_content rationale) = IsSound ops existing path new_content
IsSoundOp ops existing _ = Unit

-- The same in the validator's own terms.
abbrev HasKeys : Option Text → Type 0
HasKeys none = ⊥
HasKeys (some fm) =
    (line_has_key fm (codes "title") ≡ true) × (line_has_key fm (codes "kind") ≡ true)

abbrev Resolves : List Text → Text → Type 0
Resolves universe target = contains_text universe (split_head b'#' target) ≡ true

abbrev IsChecked : List Text → Text → Text → Type 0
IsChecked universe path content =
    (is_system path ≡ true)
    ⊎ (HasKeys (extract_frontmatter content) × All (Resolves universe) (extract_wikilinks content))

abbrev IsCheckedOp : List Text → DiffOp → Type 0
IsCheckedOp universe (create path content rationale) = IsChecked universe path content
IsCheckedOp universe (patch path new_content rationale) = IsChecked universe path new_content
IsCheckedOp universe _ = Unit

append-empty : (xs ys : List ValidationError) → xs ++ ys ≡ [] → (xs ≡ []) × (ys ≡ [])
append-empty [] ys h = (refl, h)
append-empty (x ∷ xs) ys h = cc

key_errors-HasKeys : (path : Text) (o : Option Text) → key_errors path o ≡ [] → HasKeys o
unfolding key_errors
key_errors-HasKeys path none h = cc
key_errors-HasKeys path (some fm) h = ground arith

link_errors-Resolves :
    (path : Text) (universe targets : List Text)
    → link_errors path universe targets ≡ []
    → All (Resolves universe) targets
unfolding link_errors
link_errors-Resolves path universe [] h = tt
link_errors-Resolves path universe (t ∷ targets) h =
    elim (Bool-cases (contains_text universe (split_head b'#' t))) [
      | inl e ↦ (e, link_errors-Resolves path universe targets (rw (link_errors, e) at h))
      | inr e ↦ cc (rw (link_errors, e) at h)
    ]

check_page-IsChecked :
    (path content : Text) (universe : List Text)
    → check_page path content universe ≡ []
    → IsChecked universe path content
unfolding check_page
check_page-IsChecked path content universe h = elim (Bool-cases (is_system path)) [
  | inl e ↦ inl e
  | inr e ↦
      let (keys, links) = append-empty _ _ (rw (check_page, e) at h) in
      inr (
        key_errors-HasKeys path (extract_frontmatter content) keys,
        link_errors-Resolves path universe (extract_wikilinks content) links,
      )
]

validate_ops-IsChecked :
    (universe : List Text) (ops : List DiffOp)
    → (validate_ops universe ops).errors ≡ []
    → All (IsCheckedOp universe) ops × ((validate_ops universe ops).bytes ≡ ops_bytes ops)
unfolding validate_ops checked
validate_ops-IsChecked universe [] h = (tt, refl)
validate_ops-IsChecked universe (create path content rationale ∷ ops) h =
    let (page, more) = append-empty _ _ h in
    let (sound, bytes) = validate_ops-IsChecked universe ops more in
    ((check_page-IsChecked path content universe page, sound), omega (arith, bytes))
validate_ops-IsChecked universe (patch path content rationale ∷ ops) h =
    let (page, more) = append-empty _ _ h in
    let (sound, bytes) = validate_ops-IsChecked universe ops more in
    ((check_page-IsChecked path content universe page, sound), omega (arith, bytes))
validate_ops-IsChecked universe (delete path rationale ∷ ops) h =
    let (sound, bytes) = validate_ops-IsChecked universe ops h in
    ((tt, sound), omega (arith, bytes))
validate_ops-IsChecked universe (link from to kind ∷ ops) h =
    let (sound, bytes) = validate_ops-IsChecked universe ops h in
    ((tt, sound), omega (arith, bytes))

any-Any : (p : Text → Bool) (xs : List Text) → any p xs ≡ true → Any (λ x. p x ≡ true) xs
any-Any p [] h = cc
any-Any p (x ∷ xs) h = elim (Bool-cases (p x)) [
  | inl e ↦ here e
  | inr n ↦ there (any-Any p xs (subst (λ c. (c || any p xs) ≡ true) n h))
]

line_has_key-HasLine : (fm key : Text) → line_has_key fm key ≡ true → HasLine fm (key ++ codes ":")
unfolding line_has_key
line_has_key-HasLine fm key h =
    any-Any (λ l. starts_with (key ++ codes ":") (trim_start l)) (lines fm) h

extract_frontmatter-HasFrontmatter :
    (content fm : Text) → extract_frontmatter content ≡ some fm → HasFrontmatter content fm
unfolding extract_frontmatter
extract_frontmatter-HasFrontmatter content fm h =
    elim (Option-cases (strip_prefix (codes "---") (trim_start content))) [
      | inl e ↦ cc (rw (extract_frontmatter, e) at h)
      | inr (after_first, e) ↦ elim (Option-cases (split_once (10 ∷ codes "---") after_first)) [
        | inl k ↦ cc (rw (extract_frontmatter, e, k) at h)
        | inr ((inside, rest), k) ↦
            let same : inside ≡ fm = cc (rw (extract_frontmatter, e, k) at h) in
            (
              after_first,
              rest,
              e,
              subst (λ x. split_once (10 ∷ codes "---") after_first ≡ some (x, rest)) same k,
            )
      ]
    ]

checked_page :
    (ops : List DiffOp) (existing : List Text) (path content : Text)
    → IsChecked (post_universe ops existing) path content
    → IsSound ops existing path content
checked_page ops existing path content (inl h) = inl h
checked_page ops existing path content (inr (keys, resolve)) = inr (
  titled (Option-cases (extract_frontmatter content)),
  (
    extract_wikilinks content,
    (extract_wikilinks-Finds content).0,
    All-map (λ t. settled-WillExist ops existing (split_head b'#' t)) (extract_wikilinks content)
        resolve,
  ),
)
  where
    titled :
        (extract_frontmatter content ≡ none)
          ⊎ ((fm : Text) × (extract_frontmatter content ≡ some fm))
        → (fm : Text) × HasFrontmatter content fm
          × HasLine fm (codes "title:")
          × HasLine fm (codes "kind:")
    titled (inl e) = elim (subst HasKeys e keys) [ ]
    titled (inr (fm, e)) =
        let (title, kind) = subst HasKeys e keys in
        (
          fm,
          extract_frontmatter-HasFrontmatter content fm e,
          line_has_key-HasLine fm (codes "title") title,
          line_has_key-HasLine fm (codes "kind") kind,
        )

sound_op :
    (ops : List DiffOp) (existing : List Text) (op : DiffOp)
    → IsCheckedOp (post_universe ops existing) op
    → IsSoundOp ops existing op
sound_op ops existing (create path content rationale) h = checked_page ops existing path content h
sound_op ops existing (patch path new_content rationale) h =
    checked_page ops existing path new_content h
sound_op ops existing (delete path rationale) h = tt
sound_op ops existing (link from to kind) h = tt

-- If the validator reports no errors, the bundle has operations, and every page that it writes is a
-- system page or has a title and a kind in its frontmatter and only links, up to their `#`, to pages that
-- exist after the bundle: the bundle makes them and does not delete them after that, or they exist before
-- and it does not delete them. The bytes reported are those of the pages.
pub validate-IsSound :
    (bundle : DiffBundle) (existing : List Text)
    → (validate bundle existing).errors ≡ []
    → (bundle.operations ≢ [])
      × All (IsSoundOp bundle.operations existing) bundle.operations
      × ((validate bundle existing).bytes ≡ ops_bytes bundle.operations)
unfolding validate
validate-IsSound bundle existing h = go bundle.operations h
  where
    go :
        (ops : List DiffOp)
        → (if is_empty ops
            then record { errors = empty_bundle ∷ []; touched = []; bytes = 0 }
            else validate_ops (post_universe ops existing) ops).errors
          ≡ []
        → (ops ≢ [])
          × All (IsSoundOp ops existing) ops
          × ((if is_empty ops
                then record { errors = empty_bundle ∷ []; touched = []; bytes = 0 }
                else validate_ops (post_universe ops existing) ops).bytes
              ≡ ops_bytes ops)
    go [] k = cc
    go (op ∷ ops) k =
        let (sound, bytes) =
          validate_ops-IsChecked (post_universe (op ∷ ops) existing) (op ∷ ops) k in
        ((λ e. cc), All-map (sound_op (op ∷ ops) existing) (op ∷ ops) sound, bytes)
