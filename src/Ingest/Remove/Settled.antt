-- ===== src/Ingest/Remove/Settled.antt =====
-- What all operations of a remove job's bundle do to a page.
use qpedia.Prelude.{
  ◌≡◌, refl, sym, ap, subst, ◌∙◌, inl, inr, true, false, Option, none, some, List, [], ◌∷◌, ◌++◌,
  if◌then◌else◌, All-append, Any, here, there, ok, ◌>>=◌, >>=-eq-ok, ok-injective, Bool-cases,
  Option-cases,
}
use qpedia.Text.{Text, codes, text_eq, contains_text}
use qpedia.Core.Wiki.{DiffOp, patch}
use qpedia.Store.WikiRepo.{FilePath, Repo, safe_join, read_file, read_page, path_eq}
use qpedia.Store.WikiRepo.Files.{path_eq→eq}
use qpedia.Store.WikiRepo.Replay.{names, effect, effects}
use qpedia.Store.WikiRepo.Pages.{is_page, rel_path, list_pages, list_pages-contains}
use qpedia.Ingest.Frontmatter.{extract_source_ids}
use qpedia.Ingest.Remove.{
  is_system_path, Plan, plan, delete_ops, patch_ops, page_ops, remove_wikilinks_from_index,
  index_patch, index_page_ops, index_ops, log_patch, log_page_ops, log_ops, planned,
}
use qpedia.Ingest.Remove.Fated.{fate, Fated, AllFated, Settles, effects-Fated, effects-Settles}
use qpedia.Ingest.Remove.Planned.{plan-Fated, plan-PlanSettles}

-- A file that a walk of the wiki meets under a path that names it, and that is no system page.
pub record IsWikiPage (p : FilePath) : Type 0 where
  pub walked : is_page p ≡ true
  pub named : safe_join (rel_path p) ≡ ok p
  pub other : is_system_path (rel_path p) ≡ false

abbrev pub fate_of : Text → Option Text → Option Text
fate_of source_id none = none
fate_of source_id (some content) = fate source_id content

index_is_system : is_system_path (rel_path (codes "index.md" ∷ [])) ≡ true
unfolding is_system_path rel_path
index_is_system = refl

log_is_system : is_system_path (rel_path (codes "log.md" ∷ [])) ≡ true
unfolding is_system_path rel_path
log_is_system = refl

not_named :
    (p : FilePath) (name : Text)
    → IsWikiPage p
    → is_system_path (rel_path (name ∷ [])) ≡ true
    → path_eq (name ∷ []) p ≡ false
not_named p name page h = elim (Bool-cases (path_eq (name ∷ []) p)) [
  | inr e ↦ e
  | inl e ↦ cc (
      sym page.other ∙ ap (λ q. is_system_path (rel_path q)) (sym (path_eq→eq (name ∷ []) p e)) ∙ h)
]

not_index : (p : FilePath) → IsWikiPage p → names (codes "index.md") p ≡ false
unfolding safe_join
not_index p page = not_named p (codes "index.md") page index_is_system

not_log : (p : FilePath) → IsWikiPage p → names (codes "log.md") p ≡ false
unfolding safe_join
not_log p page = not_named p (codes "log.md") page log_is_system

module _ (source_id timestamp : Text) (r : Repo) where
  other_patch :
      (p : FilePath) (path new_content : Text)
      → names path p ≡ false
      → Fated source_id r p (effect (patch path new_content []) p)
  other_patch p path new_content h = inl (λ old. ap (λ b. if b then some new_content else old) h)

  index_patch-AllFated :
      (p : FilePath) (to_delete : List Text) (content : Text)
      → IsWikiPage p
      → AllFated source_id r p (index_patch source_id to_delete content)
  unfolding index_patch
  index_patch-AllFated p to_delete content page =
      elim (Bool-cases (text_eq (remove_wikilinks_from_index content to_delete) content)) [
        | inl e ↦ rw e tt
        | inr e ↦ rw e (other_patch p (codes "index.md") _ (not_index p page), tt)
      ]

  index_page_ops-AllFated :
      (p : FilePath) (to_delete : List Text) (o : Option Text)
      → IsWikiPage p
      → AllFated source_id r p (index_page_ops source_id to_delete o)
  index_page_ops-AllFated p to_delete none page = tt
  index_page_ops-AllFated p to_delete (some content) page =
      index_patch-AllFated p to_delete content page

  index_ops-AllFated :
      (p : FilePath) (to_delete : List Text) (ops : List DiffOp)
      → IsWikiPage p
      → index_ops source_id r to_delete ≡ ok ops
      → AllFated source_id r p ops
  unfolding index_ops
  index_ops-AllFated p [] ops page h = subst (λ x. AllFated source_id r p x) (ok-injective h) tt
  index_ops-AllFated p (path ∷ paths) ops page h =
      let (o, e, k) =
        >>=-eq-ok (read_page r (codes "index.md"))
          (λ o. ok (index_page_ops source_id (path ∷ paths) o)) h in
      subst (λ x. AllFated source_id r p x) (ok-injective k)
        (index_page_ops-AllFated p (path ∷ paths) o page)

  log_page_ops-AllFated :
      (p : FilePath) (pl : Plan) (o : Option Text)
      → IsWikiPage p
      → AllFated source_id r p (log_page_ops source_id timestamp pl o)
  unfolding log_patch
  log_page_ops-AllFated p pl none page = tt
  log_page_ops-AllFated p pl (some content) page =
      (other_patch p (codes "log.md") _ (not_log p page), tt)

  log_ops-AllFated :
      (p : FilePath) (pl : Plan) (ops : List DiffOp)
      → IsWikiPage p
      → log_ops source_id timestamp pl r ≡ ok ops
      → AllFated source_id r p ops
  unfolding log_ops
  log_ops-AllFated p pl ops page h =
      let (o, e, k) =
        >>=-eq-ok (read_page r (codes "log.md")) (λ o. ok (log_page_ops source_id timestamp pl o))
          h in
      subst (λ x. AllFated source_id r p x) (ok-injective k) (log_page_ops-AllFated p pl o page)

  -- The parts of a plan.
  pub record IsPlanned (pl : Plan) (ops : List DiffOp) : Type 0 where
    pub index : List DiffOp
    pub log : List DiffOp
    pub walked : plan source_id r (list_pages r.tree) ≡ ok pl
    pub indexed : index_ops source_id r pl.to_delete ≡ ok index
    pub logged : log_ops source_id timestamp pl r ≡ ok log
    pub all_ops : ops ≡ page_ops source_id pl ++ (index ++ log)

  pub planned-IsPlanned :
      (pl : Plan) (ops : List DiffOp)
      → planned source_id timestamp r ≡ ok (pl, ops)
      → IsPlanned pl ops
  unfolding planned
  planned-IsPlanned pl ops h =
      let (p, walked, k) =
        >>=-eq-ok (plan source_id r (list_pages r.tree))
          (λ p. index_ops source_id r p.to_delete >>= (λ index.
            log_ops source_id timestamp p r
            >>= (λ log. ok (p, page_ops source_id p ++ (index ++ log)))))
          h in
      let (index, indexed, k') =
        >>=-eq-ok (index_ops source_id r p.to_delete)
          (λ index.
            log_ops source_id timestamp p r
            >>= (λ log. ok (p, page_ops source_id p ++ (index ++ log))))
          k in
      let (log, logged, k'') =
        >>=-eq-ok (log_ops source_id timestamp p r)
          (λ log. ok (p, page_ops source_id p ++ (index ++ log))) k' in
      let same = ok-injective k'' in
      subst (λ x. IsPlanned x.0 x.1) same
        (record {
          index = index;
          log = log;
          walked = walked;
          indexed = indexed;
          logged = logged;
          all_ops = refl;
        })

  planned-AllFated :
      (p : FilePath) (pl : Plan) (ops : List DiffOp)
      → IsWikiPage p
      → IsPlanned pl ops
      → AllFated source_id r p ops
  planned-AllFated p pl ops page h =
      let P : DiffOp → Type 0 = λ op. Fated source_id r p (effect op p) in
      let (deleted, patched) = plan-Fated source_id r p (list_pages r.tree) pl h.walked in
      subst (λ x. AllFated source_id r p x) (sym h.all_ops)
        (All-append P (page_ops source_id pl) (h.index ++ h.log)
          (All-append P (delete_ops source_id pl.to_delete) (patch_ops source_id pl.to_patch)
            deleted patched)
          (All-append P h.index h.log (index_ops-AllFated p pl.to_delete h.index page h.indexed)
            (log_ops-AllFated p pl h.log page h.logged)))

  Any-append : (P : DiffOp → Type 0) (xs ys : List DiffOp) → Any P xs → Any P (xs ++ ys)
  Any-append P [] ys h = elim h [ ]
  Any-append P (x ∷ xs) ys (here h) = here h
  Any-append P (x ∷ xs) ys (there h) = there (Any-append P xs ys h)

  not_listed-fate :
      (c : Text)
      → contains_text (extract_source_ids c) source_id ≡ false
      → fate source_id c ≡ some c
  unfolding fate
  not_listed-fate c h = rw h

  -- The planned operations do to a page what is to become of it.
  pub effects-planned :
      (p : FilePath) (pl : Plan) (ops : List DiffOp)
      → IsWikiPage p
      → IsPlanned pl ops
      → effects ops p (read_file p r.tree) ≡ fate_of source_id (read_file p r.tree)
  effects-planned p pl ops page h = elim (Option-cases (read_file p r.tree)) [
    | inl e ↦ elim (effects-Fated source_id r p ops fated) [
      | inl same ↦ rw e (same none)
      | inr (c, found, _, _) ↦ cc (sym e ∙ found)
    ]
    | inr (c, e) ↦ elim (Bool-cases (contains_text (extract_source_ids c) source_id)) [
      | inl lists ↦
          effects-Settles source_id r p c ops e fated
            (subst (λ x. Any (Settles source_id r p c) x) (sym h.all_ops)
              (Any-append (Settles source_id r p c) (page_ops source_id pl) (h.index ++ h.log) (
                plan-PlanSettles source_id r p c (rel_path p) (list_pages r.tree) pl h.walked
                  (list_pages-contains p c r.tree page.walked e) page.other page.named e lists)))
            (read_file p r.tree)
          ∙ ap (fate_of source_id) (sym e)
      | inr lists ↦ elim (effects-Fated source_id r p ops fated) [
        | inl same ↦ rw e (same (some c) ∙ sym (not_listed-fate c lists))
        | inr (c', found, lists', _) ↦
            let same : c' ≡ c = cc (sym found ∙ e) in
            cc (sym lists' ∙ ap (λ x. contains_text (extract_source_ids x) source_id) same ∙ lists)
      ]
    ]
  ]
    where
      fated : AllFated source_id r p ops
      fated = planned-AllFated p pl ops page h
