-- ===== src/Ingest/Remove/Planned.antt =====
-- What the planned operations do to one page.
use qpedia.Prelude.{
  ◌≡◌, sym, ap, subst, ◌∙◌, ◌⊎◌, inl, inr, true, false, Option, none, some, List, [], ◌∷◌, ◌++◌,
  arith, is_empty, Any, here, there, ok, ◌>>=◌, >>=-eq-ok, ok-injective, Bool-cases,
}
use qpedia.Text.{Text, text_eq, contains_text}
use qpedia.Text.Laws.{text_eq→eq}
use qpedia.Core.Wiki.{DiffOp}
use qpedia.Store.WikiRepo.{FilePath, Repo, safe_join, read_file, read_page}
use qpedia.Store.WikiRepo.Checks.{read_page-IsSafePath, join_path_of_safe}
use qpedia.Ingest.Frontmatter.{extract_source_ids, remove_source_id_from_frontmatter}
use qpedia.Ingest.Remove.{
  is_system_path, without, Plan, plan_page, plan_read, plan, delete_op, patch_op, delete_ops,
  patch_ops, page_ops,
}
use qpedia.Ingest.Remove.Fated.{
  fate, ListsSource, AllFated, Settles, delete-Plans, patch-Plans, Plans-Fated, Plans-Settles,
}

-- The ways to plan a page.
abbrev IsPlanOf : Text → Text → Text → Plan → Plan → Type 0
IsPlanOf source_id path content later p =
    ((contains_text (extract_source_ids content) source_id ≡ false) × (p ≡ later))
    ⊎ (ListsSource source_id content
        × (((fate source_id content ≡ none)
              × (p ≡ record later { to_delete = path ∷ later.to_delete }))
            ⊎ ((new_content : Text) × (fate source_id content ≡ some new_content)
                × (p ≡ record later { to_patch = (path, new_content) ∷ later.to_patch }))))

plan_page-IsPlanOf :
    (source_id path content : Text) (later : Plan)
    → IsPlanOf source_id path content later (plan_page source_id path content later)
unfolding plan_page fate
plan_page-IsPlanOf source_id path content later =
    elim (Bool-cases (contains_text (extract_source_ids content) source_id)) [
      | inr e ↦ inl (e, rw e)
      | inl e ↦ elim (Bool-cases (is_empty (without source_id (extract_source_ids content)))) [
        | inl k ↦ inr (e, inl (rw (e, k), rw (e, k)))
        | inr k ↦ inr (
          e,
          inr (
            remove_source_id_from_frontmatter content
                (without source_id (extract_source_ids content)),
            rw (e, k),
            rw (e, k),
          ),
        )
      ]
    ]

read_page-names :
    (r : Repo) (path : Text) (page : Option Text)
    → read_page r path ≡ ok page
    → (q : FilePath) × (safe_join path ≡ ok q) × (read_file q r.tree ≡ page)
unfolding read_page
read_page-names r path page h =
    let (q, safe) = read_page-IsSafePath r path page h in
    (q, safe, ok-injective (rw (read_page, join_path_of_safe path q safe) at h))

-- One step of the walk.
plan-cons :
    (source_id : Text) (r : Repo) (path : Text) (paths : List Text) (p : Plan)
    → is_system_path path ≡ false
    → plan source_id r (path ∷ paths) ≡ ok p
    → (page : Option Text) × (later : Plan) × (read_page r path ≡ ok page)
      × (plan source_id r paths ≡ ok later)
      × (p ≡ plan_read source_id path page later)
unfolding plan
plan-cons source_id r path paths p other h =
    let h' : (read_page r path >>= (λ page.
      plan source_id r paths >>= (λ later. ok (plan_read source_id path page later))))
        ≡ ok p =
      rw (plan, other) at h in
    let (page, e, k) =
      >>=-eq-ok (read_page r path)
        (λ page. plan source_id r paths >>= (λ later. ok (plan_read source_id path page later)))
        h' in
    let (later, e', k') =
      >>=-eq-ok (plan source_id r paths) (λ later. ok (plan_read source_id path page later)) k in
    (page, later, e, e', cc k')

plan_of_system :
    (source_id : Text) (r : Repo) (path : Text) (paths : List Text) (p : Plan)
    → is_system_path path ≡ true
    → plan source_id r (path ∷ paths) ≡ ok p
    → plan source_id r paths ≡ ok p
unfolding plan
plan_of_system source_id r path paths p system h = rw (plan, system) at h

module _ (source_id : Text) (r : Repo) where
  -- All operations of the plan are such.
  abbrev pub PlanFated : FilePath → Plan → Type 0
  PlanFated p pl =
      AllFated source_id r p (delete_ops source_id pl.to_delete)
      × AllFated source_id r p (patch_ops source_id pl.to_patch)

  plan_page-Fated :
      (path content : Text) (later pl : Plan) (q p : FilePath)
      → safe_join path ≡ ok q
      → read_file q r.tree ≡ some content
      → IsPlanOf source_id path content later pl
      → PlanFated p later
      → PlanFated p pl
  unfolding delete_ops patch_ops
  plan_page-Fated path content later pl q p safe found (inl (_, e)) h =
      subst (λ x. PlanFated p x) (sym e) h
  plan_page-Fated path content later pl q p safe found (inr (lists, inl (gone, e))) (h, k) =
      subst (λ x. PlanFated p x) (sym e)
        (
          (
            Plans-Fated source_id r path content (delete_op source_id path) q
                (delete-Plans source_id r path content gone) safe found lists p,
            h,
          ),
          k,
        )
  plan_page-Fated path content later pl q p safe found (inr (lists, inr (new_content, stays, e)))
        (h, k) =
      subst (λ x. PlanFated p x) (sym e)
        (
          h,
          (
            Plans-Fated source_id r path content (patch_op source_id path new_content) q
                (patch-Plans source_id r path content new_content stays) safe found lists p,
            k,
          ),
        )

  pub plan-Fated :
      (p : FilePath) (paths : List Text) (pl : Plan)
      → plan source_id r paths ≡ ok pl
      → PlanFated p pl
  unfolding plan
  plan-Fated p [] pl h =
      subst (λ x. PlanFated p x) (ok-injective h) (unfold delete_ops patch_ops in (tt, tt))
  plan-Fated p (path ∷ paths) pl h = elim (Bool-cases (is_system_path path)) [
    | inl system ↦ plan-Fated p paths pl (plan_of_system source_id r path paths pl system h)
    | inr other ↦
        let (page, later, reads, rest, e) = plan-cons source_id r path paths pl other h in
        subst (λ x. PlanFated p x) (sym e)
          (page-Fated page later reads (plan-Fated p paths later rest))
  ]
    where
      page-Fated :
          (page : Option Text) (later : Plan)
          → read_page r path ≡ ok page
          → PlanFated p later
          → PlanFated p (plan_read source_id path page later)
      page-Fated none later reads k = k
      page-Fated (some content) later reads k =
          let (q, safe, found) = read_page-names r path (some content) reads in
          plan_page-Fated path content later (plan_page source_id path content later) q p safe found
            (plan_page-IsPlanOf source_id path content later) k

  -- The walk settles each page that it meets and that lists the source.
  Any-insert :
      (p : FilePath) (c : Text) (xs ys : List DiffOp) (op : DiffOp)
      → Any (Settles source_id r p c) (xs ++ ys)
      → Any (Settles source_id r p c) (xs ++ op ∷ ys)
  Any-insert p c [] ys op h = there h
  Any-insert p c (x ∷ xs) ys op (here h) = here h
  Any-insert p c (x ∷ xs) ys op (there h) = there (Any-insert p c xs ys op h)

  Any-middle :
      (p : FilePath) (c : Text) (xs ys : List DiffOp) (op : DiffOp)
      → Settles source_id r p c op
      → Any (Settles source_id r p c) (xs ++ op ∷ ys)
  Any-middle p c [] ys op h = here h
  Any-middle p c (x ∷ xs) ys op h = there (Any-middle p c xs ys op h)

  abbrev pub PlanSettles : FilePath → Text → Plan → Type 0
  PlanSettles p c pl = Any (Settles source_id r p c) (page_ops source_id pl)

  plan_page-kept :
      (p : FilePath) (c path content : Text) (later pl : Plan)
      → IsPlanOf source_id path content later pl
      → PlanSettles p c later
      → PlanSettles p c pl
  unfolding delete_ops patch_ops
  plan_page-kept p c path content later pl (inl (_, e)) h = subst (λ x. PlanSettles p c x) (sym e) h
  plan_page-kept p c path content later pl (inr (_, inl (_, e))) h =
      subst (λ x. PlanSettles p c x) (sym e) (there h)
  plan_page-kept p c path content later pl (inr (_, inr (new_content, _, e))) h =
      subst (λ x. PlanSettles p c x) (sym e)
        (Any-insert p c (delete_ops source_id later.to_delete) (patch_ops source_id later.to_patch)
          _ h)

  plan_page-PlanSettles :
      (p : FilePath) (path content : Text) (later pl : Plan)
      → safe_join path ≡ ok p
      → ListsSource source_id content
      → IsPlanOf source_id path content later pl
      → PlanSettles p content pl
  unfolding delete_ops patch_ops
  plan_page-PlanSettles p path content later pl safe lists (inl (not_listed, e)) =
      cc (sym lists ∙ not_listed)
  plan_page-PlanSettles p path content later pl safe lists (inr (_, inl (gone, e))) =
      subst (λ x. PlanSettles p content x) (sym e)
        (here (
          Plans-Settles source_id r path content (delete_op source_id path) p
            (delete-Plans source_id r path content gone) safe))
  plan_page-PlanSettles p path content later pl safe lists (inr (_, inr (new_content, stays, e))) =
      subst (λ x. PlanSettles p content x) (sym e)
        (Any-middle p content (delete_ops source_id later.to_delete)
          (patch_ops source_id later.to_patch) _
          (Plans-Settles source_id r path content (patch_op source_id path new_content) p
            (patch-Plans source_id r path content new_content stays) safe))

  plan_read-kept :
      (p : FilePath) (c path : Text) (page : Option Text) (later : Plan)
      → PlanSettles p c later
      → PlanSettles p c (plan_read source_id path page later)
  plan_read-kept p c path none later h = h
  plan_read-kept p c path (some content) later h =
      plan_page-kept p c path content later (plan_page source_id path content later)
        (plan_page-IsPlanOf source_id path content later) h

  plan_read-PlanSettles :
      (p : FilePath) (c path : Text) (page : Option Text) (later : Plan)
      → read_page r path ≡ ok page
      → safe_join path ≡ ok p
      → read_file p r.tree ≡ some c
      → ListsSource source_id c
      → PlanSettles p c (plan_read source_id path page later)
  plan_read-PlanSettles p c path page later reads safe found lists =
      let (q, safe', found') = read_page-names r path page reads in
      let same : q ≡ p = ok-injective (sym safe' ∙ safe) in
      let e : page ≡ some c = sym found' ∙ ap (λ x. read_file x r.tree) same ∙ found in
      subst (λ x. PlanSettles p c (plan_read source_id path x later)) (sym e)
        (plan_page-PlanSettles p path c later (plan_page source_id path c later) safe lists
          (plan_page-IsPlanOf source_id path c later))

  contains-later :
      (path x : Text) (paths : List Text)
      → contains_text (x ∷ paths) path ≡ true
      → text_eq path x ≡ false
      → contains_text paths path ≡ true
  unfolding contains_text
  contains-later path x paths h k = ground arith

  pub plan-PlanSettles :
      (p : FilePath) (c path : Text) (paths : List Text) (pl : Plan)
      → plan source_id r paths ≡ ok pl
      → contains_text paths path ≡ true
      → is_system_path path ≡ false
      → safe_join path ≡ ok p
      → read_file p r.tree ≡ some c
      → ListsSource source_id c
      → PlanSettles p c pl
  unfolding contains_text
  plan-PlanSettles p c path [] pl h listed other safe found lists = cc
  plan-PlanSettles p c path (x ∷ paths) pl h listed other safe found lists =
      elim (Bool-cases (text_eq path x)) [
        | inl same ↦
            let e = text_eq→eq path x same in
            let (page, later, reads, rest, k) =
              plan-cons source_id r x paths pl (ap is_system_path (sym e) ∙ other) h in
            subst (λ y. PlanSettles p c y) (sym k)
              (plan_read-PlanSettles p c x page later reads (ap safe_join (sym e) ∙ safe) found
                lists)
        | inr differs ↦
            let more = contains-later path x paths listed differs in
            elim (Bool-cases (is_system_path x)) [
              | inl system ↦
                  plan-PlanSettles p c path paths pl
                    (plan_of_system source_id r x paths pl system h) more other safe found lists
              | inr k ↦
                  let (page, later, reads, rest, e) = plan-cons source_id r x paths pl k h in
                  subst (λ y. PlanSettles p c y) (sym e)
                    (plan_read-kept p c x page later
                      (plan-PlanSettles p c path paths later rest more other safe found lists))
            ]
      ]
