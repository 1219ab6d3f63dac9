-- ===== src/Retriever/Gather/Access.antt =====
-- The pages that the tool loop loads are pages that the caller may read.
use qpedia.Prelude.{
  ℕ, ◌≡◌, refl, ap, ◌∙◌, Bool, true, false, not, Bool-cases, inl, inr, Option, none, some, List, [],
  ◌∷◌, All, take, ok, ◌>>◌, >>=-eq-ok, reject_if, or_fail, subst, ok-injective, Result-cases,
}
use qpedia.Text.{Text, text_eq}
use qpedia.Store.WikiRepo.{Repo, read_page}
use qpedia.Retriever.Access.{user_can_read_page}
use qpedia.Retriever.Gather.{
  GatheredPage, View, ToolError, not_found, readable_page, page_of, insert_page,
}

-- The page is in the wiki and the caller may read it.
abbrev pub MayRead : View → Text → Text → Type 0
MayRead v path full =
    (read_page v.wiki path ≡ ok (some full))
    × (user_can_read_page v.source_acls v.user_groups full ≡ true)

-- The page's content is a first part of a page that the caller may read.
pub record IsReadable (v : View) (page : GatheredPage) : Type 0 where
  pub full : Text
  pub chars : ℕ
  pub may_read : MayRead v page.path full
  pub part : page.content ≡ take chars full

page_of-some :
    (wiki : Repo) (path full : Text)
    → page_of wiki path ≡ ok (some full)
    → read_page wiki path ≡ ok (some full)
unfolding page_of
page_of-some wiki path full h = elim (Result-cases (read_page wiki path)) [
  | inl (o, e) ↦ e ∙ ap (λ (x : Option Text). ok x) (ok-injective (rw (page_of, e) at h))
  | inr (x, e) ↦ cc (rw (page_of, e) at h)
]

or_fail-ok : (o : Option Text) (e : ToolError) (s : Text) → or_fail o e ≡ ok s → o ≡ some s
or_fail-ok none e s h = cc
or_fail-ok (some t) e s h = ap (λ (x : Text). some x) (ok-injective h)

unless :
    (b : Bool) (e : ToolError) (s t : Text)
    → (reject_if (not b) e >> ok s) ≡ ok t
    → (b ≡ true) × (s ≡ t)
unless true e s t h = (refl, ok-injective h)
unless false e s t h = cc

pub readable_page-MayRead :
    (v : View) (path full : Text) → readable_page v path ≡ ok full → MayRead v path full
unfolding readable_page
readable_page-MayRead v path full h =
    let (found, e, h1) = >>=-eq-ok (page_of v.wiki path) _ h in
    let (content, f, h2) = >>=-eq-ok (or_fail found (not_found path)) _ h1 in
    let (allowed, same) =
      unless (user_can_read_page v.source_acls v.user_groups content) (not_found path) content full
        h2 in
    let there =
      page_of-some v.wiki path content
        (e ∙ ap (λ (x : Option Text). ok x) (or_fail-ok found (not_found path) content f)) in
    subst (MayRead v path) same (there, allowed)

pub All-insert_page {κ} :
    (P : GatheredPage → Type κ) (p : GatheredPage) (pages : List GatheredPage)
    → P p
    → All P pages
    → All P (insert_page p pages)
unfolding insert_page
All-insert_page P p [] h hs = (h, tt)
All-insert_page P p (q ∷ pages) h (k, ks) = elim (Bool-cases (text_eq q.path p.path)) [
  | inl e ↦ rw (insert_page, e) (h, ks)
  | inr e ↦ rw (insert_page, e) (k, All-insert_page P p pages h ks)
]
