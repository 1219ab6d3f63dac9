-- ===== src/Ingest/Remove/Fated.antt =====
-- Operations that make of a page what is to become of it.
use qpedia.Prelude.{
  ◌≡◌, refl, sym, ap, subst, ◌∙◌, ◌⊎◌, inl, inr, true, false, not, Option, none, some, List, [],
  ◌∷◌, if◌then◌else◌, is_empty, All, Any, here, there, ok, Bool-cases,
}
use qpedia.Text.{Text, contains_text}
use qpedia.Core.Wiki.{DiffOp}
use qpedia.Store.WikiRepo.{FilePath, Repo, safe_join, read_file, path_eq}
use qpedia.Store.WikiRepo.Files.{path_eq→eq, path_eq_refl}
use qpedia.Store.WikiRepo.Replay.{names, effect, effects}
use qpedia.Ingest.Frontmatter.{extract_source_ids, remove_source_id_from_frontmatter}
use qpedia.Ingest.Remove.{without, delete_op, patch_op}

-- What becomes of a page.
unfoldable pub fate : Text → Text → Option Text
unfolding extract_source_ids contains_text without remove_source_id_from_frontmatter
fate source_id content =
    let remaining = without source_id (extract_source_ids content) in
    if not (contains_text (extract_source_ids content) source_id)
    then some content
    else if is_empty remaining
    then none
    else some (remove_source_id_from_frontmatter content remaining)

abbrev pub ListsSource : Text → Text → Type 0
ListsSource source_id content = contains_text (extract_source_ids content) source_id ≡ true

module _ (source_id : Text) (r : Repo) where
  -- The operation leaves the file, or makes of it what is to become of a page that lists the source.
  abbrev pub Fated : FilePath → (Option Text → Option Text) → Type 0
  Fated p f =
      ((old : Option Text) → f old ≡ old)
      ⊎ ((c : Text) × (read_file p r.tree ≡ some c)
          × ListsSource source_id c
          × ((old : Option Text) → f old ≡ fate source_id c))

  abbrev pub AllFated : FilePath → List DiffOp → Type 0
  AllFated p ops = All (λ op. Fated p (effect op p)) ops

  pub effects-Fated : (p : FilePath) (ops : List DiffOp) → AllFated p ops → Fated p (effects ops p)
  effects-Fated p [] h = inl (λ old. refl)
  effects-Fated p (op ∷ ops) (h, hs) = later (effects-Fated p ops hs) h
    where
      later : Fated p (effects ops p) → Fated p (effect op p) → Fated p (effects (op ∷ ops) p)
      later (inr (c, found, lists, same)) k = inr (c, found, lists, λ old. same (effect op p old))
      later (inl same) (inl same') = inl (λ old. same (effect op p old) ∙ same' old)
      later (inl same) (inr (c, found, lists, same')) =
          inr (c, found, lists, λ old. same (effect op p old) ∙ same' old)

  -- An operation that settles what becomes of a page that is there.
  abbrev pub Settles : FilePath → Text → DiffOp → Type 0
  Settles p c op = (old : Option Text) → effect op p old ≡ fate source_id c

  pub effects-Settles :
      (p : FilePath) (c : Text) (ops : List DiffOp)
      → read_file p r.tree ≡ some c
      → AllFated p ops
      → Any (Settles p c) ops
      → (old : Option Text) → effects ops p old ≡ fate source_id c
  effects-Settles p c [] found h k old = elim k [ ]
  effects-Settles p c (op ∷ ops) found (h, hs) (there k) old =
      effects-Settles p c ops found hs k (effect op p old)
  effects-Settles p c (op ∷ ops) found (h, hs) (here k) old = elim (effects-Fated p ops hs) [
    | inl same ↦ same (effect op p old) ∙ k old
    | inr (c', found', lists, same) ↦
        let e : c' ≡ c = cc (sym found' ∙ found) in same (effect op p old) ∙ ap (fate source_id) e
  ]

  names_of_safe :
      (path : Text) (q p : FilePath)
      → safe_join path ≡ ok q
      → ((names path p ≡ true) × (q ≡ p)) ⊎ (names path p ≡ false)
  names_of_safe path q p h = elim (Bool-cases (path_eq q p)) [
    | inl e ↦ inl (rw (names, h) e, path_eq→eq q p e)
    | inr e ↦ inr (rw (names, h) e)
  ]

  -- The operation makes of the page at `path` what is to become of it, and of no other.
  abbrev pub Plans : Text → Text → DiffOp → Type 0
  Plans path content op =
      (p : FilePath) (old : Option Text)
      → effect op p old ≡ (if names path p then fate source_id content else old)

  pub delete-Plans :
      (path content : Text)
      → fate source_id content ≡ none
      → Plans path content (delete_op source_id path)
  delete-Plans path content gone p old = ap (λ f. if names path p then f else old) (sym gone)

  pub patch-Plans :
      (path content new_content : Text)
      → fate source_id content ≡ some new_content
      → Plans path content (patch_op source_id path new_content)
  patch-Plans path content new_content stays p old =
      ap (λ f. if names path p then f else old) (sym stays)

  pub Plans-Fated :
      (path content : Text) (op : DiffOp) (q : FilePath)
      → Plans path content op
      → safe_join path ≡ ok q
      → read_file q r.tree ≡ some content
      → ListsSource source_id content
      → (p : FilePath) → Fated p (effect op p)
  Plans-Fated path content op q plans safe found lists p = elim (names_of_safe path q p safe) [
    | inl (named, e) ↦ inr (
      content,
      subst (λ x. read_file x r.tree ≡ some content) e found,
      lists,
      λ old. plans p old ∙ ap (λ b. if b then fate source_id content else old) named,
    )
    | inr other ↦
        inl (λ old. plans p old ∙ ap (λ b. if b then fate source_id content else old) other)
  ]

  pub Plans-Settles :
      (path content : Text) (op : DiffOp) (q : FilePath)
      → Plans path content op
      → safe_join path ≡ ok q
      → Settles q content op
  Plans-Settles path content op q plans safe old =
      let named : names path q ≡ true = rw (names, safe) (path_eq_refl q) in
      plans q old ∙ ap (λ b. if b then fate source_id content else old) named
