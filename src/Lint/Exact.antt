-- ===== src/Lint/Exact.antt =====
-- The linter's report, by the pages that it read.
use qpedia.Prelude.{
  ◌≡◌, refl, sym, ap, subst, ◌∙◌, inl, inr, Bool, false, not, ◌&&◌, Option, none, some, List, [],
  ◌∷◌, arith, map, any, length, if◌then◌else◌, Result, ok, err, ◌>>=◌, >>=-eq-ok, ok-injective,
  or_fail, Bool-cases,
}
use qpedia.Text.{Text, codes, text_eq, contains_text}
use qpedia.Text.Laws.{text_eq→eq}
use qpedia.Store.WikiRepo.{Repo, CommitError}
use qpedia.Store.WikiRepo.Pages.{list_pages, contains_text-sort}
use qpedia.Retriever.Links.{extract_wikilinks, path_only}
use qpedia.Lint.{
  is_skipped, LintReport, Walk, walk, is_orphan, dedup, listed_in, drift, ids_of, LintError,
  query_failed, stale, LintEnv, report_of, after_walk, run,
}
use qpedia.Lint.Walked.{content_of, links_of, page_ids, IsWalk, walk-IsWalk}
use qpedia.Lint.Links.{has_target, has_broken, contains_text-filter, contains_text-dedup}

-- The database has no row for the source.
abbrev pub is_gone : Option Bool → Bool
is_gone none = false
is_gone (some found) = not found

-- The entries of the index, as pages.
abbrev entries : Text → List Text
entries index = map (λ t. path_only t) (extract_wikilinks index)

-- What the index, if there is one, says of a page.
abbrev pub lacks : Option Text → Text → Bool
lacks none x = false
lacks (some index) x = not (is_skipped x) && not (contains_text (entries index) x)

abbrev pub lists : Option Text → Text → Bool
lists none x = false
lists (some index) x = contains_text (entries index) x

one_more :
    (exists : Text → Option Bool) (sid x : Text) (sids later : List Text) (found : Bool)
    → exists sid ≡ some found
    → contains_text later x ≡ (contains_text sids x && is_gone (exists x))
    → contains_text (if found then later else sid ∷ later) x
      ≡ (contains_text (sid ∷ sids) x && is_gone (exists x))
unfolding contains_text
one_more exists sid x sids later found e more = elim (Bool-cases (text_eq x sid)) [
  | inl t ↦
      let here : exists x ≡ some found = ap exists (text_eq→eq x sid t) ∙ e in
      elim (Bool-cases found) [
        | inl k ↦ ground (arith, t, k, here, more)
        | inr k ↦ ground (arith, t, k, here, more)
      ]
  | inr t ↦ elim (Bool-cases found) [
    | inl k ↦ ground (arith, t, k, more)
    | inr k ↦ ground (arith, t, k, more)
  ]
]

or_fail-ok :
    (o : Option Bool) (found : Bool)
    → or_fail {E = LintError} o query_failed ≡ ok found
    → o ≡ some found
or_fail-ok none found e = cc
or_fail-ok (some b) found e = ap (λ x. some x) (ok-injective e)

stale-contains :
    (exists : Text → Option Bool) (sids out : List Text) (x : Text)
    → stale exists sids ≡ ok out
    → contains_text out x ≡ (contains_text sids x && is_gone (exists x))
unfolding stale
stale-contains exists [] out x h =
    ap (λ o. contains_text o x) (sym (ok-injective h)) ∙ (unfold contains_text in refl)
stale-contains exists (sid ∷ sids) out x h =
    let (found, e, k) =
      >>=-eq-ok (or_fail (exists sid) query_failed)
        (λ found. stale exists sids >>= (λ later. ok (if found then later else sid ∷ later))) h in
    let (later, e', k') =
      >>=-eq-ok (stale exists sids) (λ later. ok (if found then later else sid ∷ later)) k in
    ap (λ o. contains_text o x) (sym (ok-injective k'))
    ∙ one_more exists sid x sids later found (or_fail-ok (exists sid) found e)
        (stale-contains exists sids later x e')

nothing_in : (a : Bool) (x : Text) → contains_text [] x ≡ (a && false)
unfolding contains_text
nothing_in a x = ground arith

listed_lem : (index x : Text) → contains_text (listed_in index) x ≡ contains_text (entries index) x
unfolding listed_in
listed_lem index x = contains_text-dedup x (entries index)

module _ (env : LintEnv) (r : Repo) where
  abbrev pages : List Text
  pages = list_pages r.tree

  abbrev pub index_of : Option Text
  index_of =
      if contains_text pages (codes "index.md") then content_of r (codes "index.md") else none

  -- The report says of each page, link, entry and source what the pages say.
  pub record IsExact (report : LintReport) : Type 0 where
    pub counted : report.page_count ≡ length pages
    pub orphans :
        (x : Text)
        → contains_text report.orphans x ≡ (
            contains_text pages x
            && (not (is_skipped x) && not (any (λ p. has_target (links_of r p) x) pages)))
    pub broken :
        (page target : Text)
        → has_broken page target report.broken_links
          ≡ any
              (λ p.
                text_eq p page
                && any (λ t. text_eq t target) (links_of r p)
                && not (contains_text pages (path_only target)))
              pages
    pub missing :
        (x : Text)
        → contains_text report.index_drift.missing_from_index x
          ≡ (contains_text pages x && lacks index_of x)
    pub dangling :
        (x : Text)
        → contains_text report.index_drift.stale_in_index x
          ≡ (lists index_of x && not (contains_text pages x))
    pub unknown :
        (x : Text)
        → contains_text report.stale_source_ids x
          ≡ (any (λ p. contains_text (page_ids r p) x) pages && is_gone (env.exists x))

  missing_lem :
      (o : Option Text) (x : Text)
      → contains_text (drift pages o).missing_from_index x ≡ (contains_text pages x && lacks o x)
  unfolding drift
  missing_lem none x = nothing_in (contains_text pages x) x
  missing_lem (some index) x =
      contains_text-filter (λ p. not (is_skipped p) && not (contains_text (listed_in index) p)) x
        pages
      ∙ ap (λ b. contains_text pages x && (not (is_skipped x) && not b)) (listed_lem index x)

  dangling_lem :
      (o : Option Text) (x : Text)
      → contains_text (drift pages o).stale_in_index x ≡ (lists o x && not (contains_text pages x))
  unfolding drift
  dangling_lem none x = unfold contains_text in refl
  dangling_lem (some index) x =
      contains_text-filter (λ e. not (contains_text pages e)) x (listed_in index)
      ∙ ap (λ b. b && not (contains_text pages x)) (listed_lem index x)

  report_of-IsExact :
      (w : Walk) (stale_ids : List Text)
      → IsWalk r pages pages w
      → stale env.exists (dedup (ids_of w.cache)) ≡ ok stale_ids
      → IsExact (report_of env pages w stale_ids)
  unfolding report_of
  report_of-IsExact w stale_ids h k = record {
    counted = refl;
    orphans = λ x.
        contains_text-filter (is_orphan w.inbound) x pages
        ∙ ap (λ b. contains_text pages x && b)
            (unfold is_orphan in ap (λ b. not (is_skipped x) && b) (h.counts x));
    broken = h.broken;
    missing = λ x.
        ap (λ o. contains_text (drift pages o).missing_from_index x) (h.found (codes "index.md"))
        ∙ missing_lem index_of x;
    dangling = λ x.
        ap (λ o. contains_text (drift pages o).stale_in_index x) (h.found (codes "index.md"))
        ∙ dangling_lem index_of x;
    unknown = λ x.
        contains_text-sort x stale_ids
        ∙ stale-contains env.exists (dedup (ids_of w.cache)) stale_ids x k
        ∙ ap (λ b. b && is_gone (env.exists x)) (contains_text-dedup x (ids_of w.cache) ∙ h.ids x);
  }

  after_walk-IsExact :
      (report : LintReport) (o : Result CommitError Walk)
      → walk r pages pages ≡ o
      → after_walk env pages o ≡ ok report
      → IsExact report
  unfolding after_walk
  after_walk-IsExact report (err e) k h = cc
  after_walk-IsExact report (ok w) k h =
      let (stale_ids, e, k') =
        >>=-eq-ok (stale env.exists (dedup (ids_of w.cache))) (λ s. ok (report_of env pages w s))
          h in
      subst IsExact (ok-injective k')
        (report_of-IsExact w stale_ids (walk-IsWalk r pages pages w k) e)

  -- A report that the linter makes is exact. It counts the pages. The orphans are the pages, but for the
  -- system pages, that no page links to; the broken links are those in pages whose target, without its
  -- anchor, is no page. If there is an index, the pages that it lacks are those, but for the system
  -- pages, that it does not link to, and its stale entries are the targets of its links that are no
  -- pages. The stale sources are those that pages list and the database does not know.
  pub run-IsExact : (report : LintReport) → run env r ≡ ok report → IsExact report
  unfolding run
  run-IsExact report h = after_walk-IsExact report (walk r pages pages) refl h
