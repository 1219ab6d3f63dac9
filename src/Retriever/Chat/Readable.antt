-- ===== src/Retriever/Chat/Readable.antt =====
-- The pages of an answer, those of the fallback included.
use qpedia.Prelude.{
  not_leb→lt, ℕ, suc, ◌≤◌, ◌<◌, min, max, ◌≡◌, refl, sym, ap, subst, Bool-cases, inl, inr, some,
  Option-cases, List, [], ◌∷◌, All, take, length, leb, ok, Result-cases, arith,
}
use mathlib.Core.Option.{some-injective}
use qpedia.Text.{Text, text_eq}
use qpedia.Retriever.Search.{SearchHit, do_search}
use qpedia.Retriever.Gather.{
  GatheredPage, View, Env, max_pages_loaded, gather_turns, insert_page, readable_page, run_turns,
}
use qpedia.Retriever.Gather.Access.{IsReadable, readable_page-MayRead, All-insert_page}
use qpedia.Retriever.Gather.Budget.{run_turns-IsLoaded}
use qpedia.Retriever.Chat.{
  ChatRequest, kept, load_hits, found_hits, or_fallback, text_leb, insert_sorted, sort_pages,
  gather_start, gather,
}

take-length : (s : Text) → take (length s) s ≡ s
take-length [] = refl
take-length (c ∷ s) = ap (λ t. c ∷ t) (take-length s)

length-insert_page-le :
    (p : GatheredPage) (pages : List GatheredPage)
    → length (insert_page p pages) ≤ suc (length pages)
unfolding insert_page
length-insert_page-le p [] = omega arith
length-insert_page-le p (q ∷ pages) = elim (Bool-cases (text_eq q.path p.path)) [
  | inl e ↦ rw (insert_page, e) (omega arith)
  | inr e ↦ rw (insert_page, e) (omega (arith, length-insert_page-le p pages))
]

-- Readable pages, so many at most.
abbrev pub IsServed : View → ℕ → List GatheredPage → Type 0
IsServed v limit pages = All (IsReadable v) pages × (length pages ≤ limit)

module _ (v : View) where
  kept-IsServed :
      (h : SearchHit) (content : Text) (limit : ℕ) (pages : List GatheredPage)
      → readable_page v h.path ≡ ok content
      → All (IsReadable v) pages
      → length pages < limit
      → IsServed v limit (kept h content pages)
  unfolding kept
  kept-IsServed h content limit pages e hs few = (
    All-insert_page (IsReadable v) page pages readable hs,
    omega (arith, length-insert_page-le page pages),
  )
    where
      page : GatheredPage
      page = record { path = h.path; title = h.title; content = content }

      readable : IsReadable v page
      readable = record {
        full = content;
        chars = length content;
        may_read = readable_page-MayRead v h.path content e;
        part = sym (take-length content);
      }

  load_hits-IsServed :
      (limit : ℕ) (hits : List SearchHit) (pages : List GatheredPage)
      → All (IsReadable v) pages
      → length pages < limit
      → IsServed v limit (load_hits v limit hits pages)
  unfolding load_hits
  load_hits-IsServed limit [] pages hs few = (hs, omega arith)
  load_hits-IsServed limit (h ∷ hits) pages hs few = elim (Result-cases (readable_page v h.path)) [
    | inr (x, e) ↦ rw (load_hits, e) (load_hits-IsServed limit hits pages hs few)
    | inl (content, e) ↦
        let served = kept-IsServed h content limit pages e hs few in
        elim (Bool-cases (leb limit (length (kept h content pages)))) [
          | inl f ↦ rw (load_hits, e, f) served
          | inr f ↦
              rw (load_hits, e, f)
                (load_hits-IsServed limit hits (kept h content pages) served.0
                  (not_leb→lt limit (length (kept h content pages)) f))
        ]
  ]

  or_fallback-IsServed :
      (env : Env) (req : ChatRequest) (pages : List GatheredPage)
      → IsServed v max_pages_loaded pages
      → IsServed v max_pages_loaded (or_fallback env v req pages)
  unfolding or_fallback
  or_fallback-IsServed env req (p ∷ pages) h = h
  or_fallback-IsServed env req [] h =
      let limit = min (max req.max_pages 1) max_pages_loaded in
      let (readable, few) =
        load_hits-IsServed limit (found_hits (do_search env.services req.message limit)) [] tt
          (omega arith) in
      (readable, omega arith)

  insert_sorted-IsServed :
      (n : ℕ) (p : GatheredPage) (pages : List GatheredPage)
      → IsReadable v p
      → IsServed v n pages
      → IsServed v (suc n) (insert_sorted p pages)
  unfolding insert_sorted
  insert_sorted-IsServed n p [] h (hs, few) = ((h, tt), omega arith)
  insert_sorted-IsServed n p (q ∷ pages) h ((k, ks), few) =
      elim (Bool-cases (text_leb p.path q.path)) [
        | inl e ↦ rw (insert_sorted, e) ((h, (k, ks)), omega arith)
        | inr e ↦
            let (all, l) = insert_sorted-IsServed (length pages) p pages h (ks, omega arith) in
            rw (insert_sorted, e) ((k, all), omega arith)
      ]

  sort_pages-IsServed :
      (pages : List GatheredPage)
      → All (IsReadable v) pages
      → IsServed v (length pages) (sort_pages pages)
  unfolding sort_pages
  sort_pages-IsServed [] h = (tt, omega arith)
  sort_pages-IsServed (p ∷ pages) (h, hs) =
      insert_sorted-IsServed (length pages) p (sort_pages pages) h (sort_pages-IsServed pages hs)

-- Every page that an answer is made from is a first part of a wiki page that the caller's groups may
-- read, and there are at most 8 of them, whatever the model asks for and the search finds.
pub gather-IsServed :
    (env : Env) (v : View) (req : ChatRequest) (pages : List GatheredPage)
    → gather env v req ≡ some pages
    → IsServed v max_pages_loaded pages
unfolding gather
gather-IsServed env v req pages h =
    elim (Option-cases
      (run_turns env v gather_turns (gather_start req) (record { pages = []; total_bytes = 0 }))) [
        | inl e ↦ cc (rw (gather, e) at h)
        | inr (loaded, e) ↦
            let l =
              run_turns-IsLoaded env v gather_turns (gather_start req)
                (record { pages = []; total_bytes = 0 }) loaded refl
                (record { readable = tt; few = omega arith; counted = refl; small = omega arith })
                e in
            let (readable, few) = or_fallback-IsServed v env req loaded.pages (l.readable, l.few) in
            let (sorted, count) =
              sort_pages-IsServed v (or_fallback env v req loaded.pages) readable in
            subst (IsServed v max_pages_loaded) (some-injective _ _ (rw (gather, e) at h))
              (sorted, omega arith)
      ]
