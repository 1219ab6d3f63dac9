-- ===== src/Retriever/Chat/Same.antt =====
-- Answers and the pages that a caller may not read.
use qpedia.Prelude.{
  ap, min, max, ◌≡◌, refl, Option, some, Option-cases, inl, inr, List, [], ◌∷◌, Bool-cases, leb,
  length, Result-cases, ℕ,
}
use qpedia.Text.{Text}
use qpedia.Llm.{Message}
use qpedia.Retriever.Search.{SearchHit, do_search}
use qpedia.Retriever.Gather.{
  View, Env, GatheredPage, max_pages_loaded, gather_turns, run_turns, readable_page,
}
use qpedia.Retriever.Gather.Privacy.{SameView, same_pages, run_turns-SameView}
use qpedia.Retriever.Chat.{
  ChatRequest, TokenStream, gather_start, sort_pages, found_hits, kept, load_hits, or_fallback,
  gather, chat,
}

module _ (env : Env) (v w : View)
    (same : (path : Text) → readable_page v path ≡ readable_page w path) where
  load_hits-SameView :
      (limit : ℕ) (hits : List SearchHit) (pages : List GatheredPage)
      → load_hits v limit hits pages ≡ load_hits w limit hits pages
  unfolding load_hits
  load_hits-SameView limit [] pages = refl
  load_hits-SameView limit (h ∷ hits) pages = elim (Result-cases (readable_page w h.path)) [
    | inr (x, e) ↦ rw (load_hits, same h.path, e) (load_hits-SameView limit hits pages)
    | inl (content, e) ↦ elim (Bool-cases (leb limit (length (kept h content pages)))) [
      | inl f ↦ rw (load_hits, same h.path, e, f) refl
      | inr f ↦
          rw (load_hits, same h.path, e, f) (load_hits-SameView limit hits (kept h content pages))
    ]
  ]

  or_fallback-SameView :
      (req : ChatRequest) (pages : List GatheredPage)
      → or_fallback env v req pages ≡ or_fallback env w req pages
  unfolding or_fallback
  or_fallback-SameView req (p ∷ pages) = refl
  or_fallback-SameView req [] =
      load_hits-SameView (min (max req.max_pages 1) max_pages_loaded)
        (found_hits
          (do_search env.services req.message (min (max req.max_pages 1) max_pages_loaded)))
        []

  gather-SameView : (req : ChatRequest) → gather env v req ≡ gather env w req
  unfolding gather
  gather-SameView req =
      rw
        (
          gather,
          run_turns-SameView env v w same gather_turns (gather_start req)
              (record { pages = []; total_bytes = 0 }),
        )
        (elim (Option-cases (
          run_turns env w gather_turns (gather_start req)
            (record { pages = []; total_bytes = 0 }))) [
              | inl e ↦ rw e refl
              | inr (loaded, e) ↦
                  rw e
                    (ap (λ pages. some (sort_pages pages)) (or_fallback-SameView req loaded.pages))
            ])

-- A caller learns nothing of the pages that they may not read: two wikis, with whatever access lists
-- and groups, that show the caller the same pages give the same events of the answer, when the
-- search and the model answer alike.
pub chat-SameView :
    (env : Env) (stream : List Message → Option TokenStream) (v w : View) (req : ChatRequest)
    → SameView v w
    → chat env stream v req ≡ chat env stream w req
unfolding chat
chat-SameView env stream v w req same = rw (gather-SameView env v w (same_pages v w same) req) refl
