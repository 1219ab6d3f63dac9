-- ===== src/Retriever/Chat.antt =====
-- crates/qpedia-retriever/src/lib.rs, `gather`, `build_user_msg` and `chat`.
pub mod Readable
pub mod Same
pub mod Events
use qpedia.Prelude.{
  ℕ, zero, suc, ◌+◌, min, max, Bool, true, false, not, Option, none, some, List, [], ◌∷◌, ◌++◌, map,
  ltb, leb, ◌==◌, if◌then◌else◌, is_empty, take, length, Result, ok, err,
}
use qpedia.Text.{Text, codes, ends_with, decimal}
use qpedia.Llm.{Message, user, assistant}
use qpedia.Retriever.Search.{SearchHit, do_search}
use qpedia.Retriever.Gather.{
  GatheredPage, View, Env, Loaded, ToolError, insert_page, readable_page, run_turns, gather_turns,
  max_pages_loaded,
}

pub data ChatRole : Type 0 where
  user_role assistant_role : ChatRole

pub record ChatRequest : Type 0 where
  pub message : Text
  pub history : List (ChatRole × Text)
  pub max_pages : ℕ

abbrev pub history_message : ChatRole × Text → Message
history_message (user_role, s) = user s
history_message (assistant_role, s) = assistant s []

-- The fallback of `gather`: the hits of one search that can be read, until there are `limit` pages.
unfoldable pub kept : SearchHit → Text → List GatheredPage → List GatheredPage
unfolding insert_page
kept h content pages =
    insert_page (record { path = h.path; title = h.title; content = content }) pages

unfoldable pub load_hits : View → ℕ → List SearchHit → List GatheredPage → List GatheredPage
unfolding readable_page kept
load_hits v limit [] pages = pages
load_hits v limit (h ∷ hits) pages = elim (readable_page v h.path) [
  | err e ↦ load_hits v limit hits pages
  | ok content ↦ elim (leb limit (length (kept h content pages))) [
    | true ↦ kept h content pages
    | false ↦ load_hits v limit hits (kept h content pages)
  ]
]

abbrev pub found_hits : Option (List SearchHit) → List SearchHit
found_hits none = []
found_hits (some hits) = hits

unfoldable pub or_fallback : Env → View → ChatRequest → List GatheredPage → List GatheredPage
unfolding do_search load_hits
or_fallback env v req (p ∷ pages) = p ∷ pages
or_fallback env v req [] =
    let limit = min (max req.max_pages 1) max_pages_loaded in
    load_hits v limit (found_hits (do_search env.services req.message limit)) []

-- `a.path.cmp(&b.path)`: the bytes of UTF-8 are ordered as the code points are.
unfoldable pub text_leb : Text → Text → Bool
text_leb [] t = true
text_leb (a ∷ s) [] = false
text_leb (a ∷ s) (b ∷ t) =
    let rest = text_leb s t in if ltb a b then true else if a == b then rest else false

unfoldable pub insert_sorted : GatheredPage → List GatheredPage → List GatheredPage
unfolding text_leb
insert_sorted p [] = p ∷ []
insert_sorted p (q ∷ pages) =
    let rest = insert_sorted p pages in if text_leb p.path q.path then p ∷ q ∷ pages else q ∷ rest

unfoldable pub sort_pages : List GatheredPage → List GatheredPage
unfolding insert_sorted
sort_pages [] = []
sort_pages (p ∷ pages) = insert_sorted p (sort_pages pages)

question : Text → Text
question message =
    codes "USER QUESTION:\n"
    ++ (message ++ codes "\n\nGather the wiki context you need, then call done().")

unfoldable pub gather_start : ChatRequest → List Message
unfolding question
gather_start req = map history_message req.history ++ user (question req.message) ∷ []

unfoldable pub gather : Env → View → ChatRequest → Option (List GatheredPage)
unfolding run_turns or_fallback sort_pages gather_start
gather env v req =
    elim (run_turns env v gather_turns (gather_start req)
      (record { pages = []; total_bytes = 0 })) [
        | none ↦ none
        | some loaded ↦ some (sort_pages (or_fallback env v req loaded.pages))
      ]

page_section : ℕ → GatheredPage → Text
unfolding decimal ends_with
page_section n p =
    let truncated = take 8000 p.content in
    codes "--- "
    ++ (decimal n
        ++ (codes ". "
            ++ (p.path
                ++ (10
                    ∷ (truncated
                        ++ ((if ends_with (10 ∷ []) truncated then [] else 10 ∷ [])
                            ++ (10 ∷ [])))))))

page_sections : ℕ → List GatheredPage → Text
unfolding page_section
page_sections n [] = []
page_sections n (p ∷ pages) = page_section n p ++ page_sections (suc n) pages

unfoldable pub build_user_msg : Text → List GatheredPage → Text
unfolding page_sections
build_user_msg message [] =
    codes "RETRIEVED PAGES: (none — wiki search returned no results)\n\n"
    ++ (codes "QUESTION: " ++ message)
build_user_msg message (p ∷ pages) =
    codes "RETRIEVED PAGES:\n\n" ++ (page_sections 1 (p ∷ pages) ++ (codes "QUESTION: " ++ message))

unfoldable pub build_synthesis_messages : ChatRequest → List GatheredPage → List Message
unfolding build_user_msg
build_synthesis_messages req pages =
    map history_message req.history ++ user (build_user_msg req.message pages) ∷ []

pub data ChatEvent : Type 0 where
  meta : (retrieved : List (Text × Text)) (mode : Text) → ChatEvent
  token : Text → ChatEvent
  done error : ChatEvent

-- A stream of the model: tokens, and an end or a failure.
abbrev pub TokenStream : Type 0
TokenStream = List Text × Bool

stream_events : List Text → Bool → List ChatEvent
stream_events [] true = done ∷ []
stream_events [] false = error ∷ []
stream_events (text ∷ more) ends = token text ∷ stream_events more ends

synthesis : Option TokenStream → List ChatEvent
unfolding stream_events
synthesis none = error ∷ []
synthesis (some (texts, ends)) = stream_events texts ends

abbrev citation : GatheredPage → Text × Text
citation p = (p.path, p.title)

chat_mode : Env → Text
chat_mode env = elim env.services.hybrid_search [
  | none ↦ codes "filesystem+graph"
  | some search ↦ codes "hybrid+graph"
]

unfoldable pub chat :
    Env → (List Message → Option TokenStream) → View → ChatRequest → List ChatEvent
unfolding gather build_synthesis_messages synthesis chat_mode
chat env stream v req = elim (gather env v req) [
  | none ↦ error ∷ []
  | some pages ↦
      meta (map citation pages) (chat_mode env)
      ∷ synthesis (stream (build_synthesis_messages req pages))
]
