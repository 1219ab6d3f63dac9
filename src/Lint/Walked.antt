-- ===== src/Lint/Walked.antt =====
-- What the linter's walk over the pages records.
use qpedia.Prelude.{
  ◌≡◌, refl, ap, ap₂, subst, ◌∙◌, inl, inr, Bool, false, not, ◌&&◌, ◌||◌, Option, none, some, List,
  [], ◌∷◌, arith, any, ◌==◌, if◌then◌else◌, Result, ok, err, ◌>>=◌, >>=-eq-ok, ok-injective,
  Bool-cases,
}
use qpedia.Text.{Text, text_eq, contains_text}
use qpedia.Text.Laws.{text_eq→eq, text_eq_iff}
use qpedia.Store.WikiRepo.{Repo, CommitError, read_page}
use qpedia.Retriever.Links.{extract_wikilinks, path_only}
use qpedia.Lint.{extract_source_ids, links_to, Walk, walk_page, walk, cached, ids_of}
use qpedia.Lint.Links.{
  has_target, links_to-bump_all, has_broken, has_broken-append, has_broken-broken_in,
  contains_text-append,
}

abbrev pub or_none : Result CommitError (Option Text) → Option Text
or_none (ok page) = page
or_none (err e) = none

not_or : (a b : Bool) → (not a && not b) ≡ not (a || b)
not_or a b = ground arith

no_links : (a b c : Bool) → c ≡ ((a && false && not b) || c)
no_links a b c = ground arith

module _ (r : Repo) where
  -- What a page holds, the links in it, and the sources that it lists.
  unfoldable pub content_of : Text → Option Text
  unfolding read_page
  content_of path = or_none (read_page r path)

  abbrev pub links_in : Option Text → List Text
  links_in none = []
  links_in (some content) = extract_wikilinks content

  abbrev pub ids_in : Option Text → List Text
  ids_in none = []
  ids_in (some content) = extract_source_ids content

  abbrev pub links_of : Text → List Text
  links_of path = links_in (content_of path)

  abbrev pub page_ids : Text → List Text
  page_ids path = ids_in (content_of path)

  content_of-read_page :
      (path : Text) (page : Option Text) → read_page r path ≡ ok page → content_of path ≡ page
  unfolding content_of
  content_of-read_page path page h = ap or_none h

  -- What the walk over some pages has recorded.
  pub record IsWalk (pages paths : List Text) (w : Walk) : Type 0 where
    pub counts :
        (x : Text) → (links_to x w.inbound == 0) ≡ not (any (λ p. has_target (links_of p) x) paths)
    pub broken :
        (page target : Text)
        → has_broken page target w.broken_links
          ≡ any
              (λ p.
                text_eq p page
                && any (λ t. text_eq t target) (links_of p)
                && not (contains_text pages (path_only target)))
              paths
    pub found :
        (x : Text) → cached x w.cache ≡ (if contains_text paths x then content_of x else none)
    pub ids :
        (x : Text)
        → contains_text (ids_of w.cache) x ≡ any (λ p. contains_text (page_ids p) x) paths

  absent_found :
      (x path : Text) (paths : List Text) (o : Option Text)
      → content_of path ≡ none
      → o ≡ (if contains_text paths x then content_of x else none)
      → o ≡ (if contains_text (path ∷ paths) x then content_of x else none)
  unfolding contains_text
  absent_found x path paths o e h = elim (Bool-cases (text_eq x path)) [
    | inl k ↦
        let gone : content_of x ≡ none = ap content_of (text_eq→eq x path k) ∙ e in
        ground (arith, k, gone, h)
    | inr k ↦ rw k h
  ]

  present_found :
      (x path content : Text) (paths : List Text) (cache : List (Text × Text))
      → content_of path ≡ some content
      → cached x cache ≡ (if contains_text paths x then content_of x else none)
      → cached x ((path, content) ∷ cache)
        ≡ (if contains_text (path ∷ paths) x then content_of x else none)
  unfolding contains_text cached
  present_found x path content paths cache e h = elim (Bool-cases (text_eq x path)) [
    | inl k ↦
        let there : content_of x ≡ some content = ap content_of (text_eq→eq x path k) ∙ e in
        ground (arith, k, there, text_eq_iff x path, text_eq_iff path x)
    | inr k ↦ ground (arith, k, h, text_eq_iff x path, text_eq_iff path x)
  ]

  walk_page-IsWalk :
      (pages paths : List Text) (path : Text) (page : Option Text) (later : Walk)
      → content_of path ≡ page
      → IsWalk pages paths later
      → IsWalk pages (path ∷ paths) (walk_page pages path page later)
  unfolding walk_page ids_of
  walk_page-IsWalk pages paths path none later e h = record {
    counts = λ x. rw e (h.counts x);
    broken = λ page target. rw e (
        h.broken page target
        ∙ no_links (text_eq path page) (contains_text pages (path_only target)) _);
    found = λ x. absent_found x path paths (cached x later.cache) e (h.found x);
    ids = λ x. rw e (h.ids x);
  }
  walk_page-IsWalk pages paths path (some content) later e h = record {
    counts = λ x. rw e (
        links_to-bump_all x (extract_wikilinks content) later.inbound
        ∙ ap (λ b. not (has_target (extract_wikilinks content) x) && b) (h.counts x)
        ∙ not_or (has_target (extract_wikilinks content) x)
            (any (λ p. has_target (links_of p) x) paths));
    broken = λ page target. rw e (
        has_broken-append page target _ later.broken_links
        ∙ ap₂ ◌||◌ (has_broken-broken_in pages path page target (extract_wikilinks content))
            (h.broken page target));
    found = λ x. present_found x path content paths later.cache e (h.found x);
    ids = λ x. rw e (
        contains_text-append x (extract_source_ids content) (ids_of later.cache)
        ∙ ap (λ b. contains_text (extract_source_ids content) x || b) (h.ids x));
  }

  pub walk-IsWalk :
      (pages paths : List Text) (w : Walk) → walk r pages paths ≡ ok w → IsWalk pages paths w
  unfolding walk
  walk-IsWalk pages [] w h =
      subst (λ x. IsWalk pages [] x) (ok-injective h)
        (record {
          counts = λ x. unfold links_to in refl;
          broken = λ page target. refl;
          found = λ x. unfold cached contains_text in refl;
          ids = λ x. unfold ids_of contains_text in refl;
        })
  walk-IsWalk pages (path ∷ paths) w h =
      let (page, e, k) =
        >>=-eq-ok (read_page r path)
          (λ page. walk r pages paths >>= (λ later. ok (walk_page pages path page later))) h in
      let (later, e', k') =
        >>=-eq-ok (walk r pages paths) (λ later. ok (walk_page pages path page later)) k in
      subst (λ x. IsWalk pages (path ∷ paths) x) (ok-injective k')
        (walk_page-IsWalk pages paths path page later (content_of-read_page path page e)
          (walk-IsWalk pages paths later e'))
