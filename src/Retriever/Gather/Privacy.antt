-- ===== src/Retriever/Gather/Privacy.antt =====
-- What a view shows of the wiki, and that the tools show no more.
use qpedia.Prelude.{
  ℕ, zero, suc, ◌≡◌, refl, sym, Result-cases, ap, ◌∙◌, Bool, true, false, Bool-cases, inl, inr,
  Option-cases, Option, none, some, List, [], ◌∷◌, map, Result, ok, err, ◌>>=◌, >>=-ext, or_fail,
  if◌then◌else◌,
}
use qpedia.Text.{Text, codes}
use qpedia.Llm.{Argument, ToolCall, Message, str_argument}
use qpedia.Store.WikiRepo.{CommitError, read_page}
use qpedia.Retriever.Access.{user_can_read_page}
use qpedia.Retriever.Links.{extract_wikilinks, path_only}
use qpedia.Retriever.Search.{SearchHit}
use qpedia.Retriever.Gather.{
  View, Env, Loaded, Turn, ToolError, missing, wiki_failed, not_found, page_of, readable_page,
  allowed_hits, read_tool, search_tool, links_tool, execute_gather_tool, run_call, run_calls,
  run_turns, and_then, turn_end, begin_turn,
}

-- What a view shows of the wiki: a page that the caller may not read looks like one that is missing.
unfoldable pub shown : View → Text → Result CommitError (Option Text)
shown v path = elim (read_page v.wiki path) [
  | err e ↦ err e
  | ok none ↦ ok none
  | ok (some full) ↦
      ok (if user_can_read_page v.source_acls v.user_groups full then some full else none)
]

-- Two views that show their callers the same pages.
abbrev pub SameView : View → View → Type 0
SameView v w = (path : Text) → shown v path ≡ shown w path

from_shown : Text → Result CommitError (Option Text) → Result ToolError Text
from_shown path (err e) = err (wiki_failed e)
from_shown path (ok none) = err (not_found path)
from_shown path (ok (some full)) = ok full

readable_page-from_shown :
    (v : View) (path : Text) → readable_page v path ≡ from_shown path (shown v path)
unfolding readable_page page_of from_shown shown
readable_page-from_shown v path = elim (Result-cases (read_page v.wiki path)) [
  | inr (x, e) ↦ rw (readable_page, page_of, shown, e) refl
  | inl (none, e) ↦ rw (readable_page, page_of, shown, e) refl
  | inl (some full, e) ↦ elim (Bool-cases (user_can_read_page v.source_acls v.user_groups full)) [
    | inl f ↦ rw (readable_page, page_of, shown, e, f) refl
    | inr f ↦ rw (readable_page, page_of, shown, e, f) refl
  ]
]

pub same_pages :
    (v w : View) → SameView v w → (path : Text) → readable_page v path ≡ readable_page w path
same_pages v w same path =
    readable_page-from_shown v path
    ∙ (ap (from_shown path) (same path) ∙ sym (readable_page-from_shown w path))

and_then-ext :
    (p : Turn × Bool) (f g : Turn → Turn) → ((t : Turn) → f t ≡ g t) → and_then p f ≡ and_then p g
and_then-ext (t, true) f g h = refl
and_then-ext (t, false) f g h = h t

turn_end-ext :
    (t : Turn) (f g : Turn → Option Loaded) → ((u : Turn) → f u ≡ g u) → turn_end t f ≡ turn_end t g
turn_end-ext t f g h = ap (λ o. if t.done_signaled then some t.loaded else o) (h t)

module _ (env : Env) (v w : View)
    (same : (path : Text) → readable_page v path ≡ readable_page w path) where
  pub allowed_hits-SameView : (hits : List SearchHit) → allowed_hits v hits ≡ allowed_hits w hits
  unfolding allowed_hits
  allowed_hits-SameView [] = refl
  allowed_hits-SameView (h ∷ hits) = rw (same h.path, allowed_hits-SameView hits) refl

  read_tool-SameView :
      (loaded : Loaded) (o : Option Text) → read_tool v loaded o ≡ read_tool w loaded o
  unfolding read_tool
  read_tool-SameView loaded none = refl
  read_tool-SameView loaded (some path) = rw (same path) refl

  search_tool-SameView :
      (args : List (Text × Argument)) → search_tool env v args ≡ search_tool env w args
  unfolding search_tool
  search_tool-SameView args =
      >>=-ext _ (λ hits. ok (env.hits_to_json (allowed_hits v hits)))
        (λ hits. ok (env.hits_to_json (allowed_hits w hits)))
        (λ hits. ap (λ kept. ok (env.hits_to_json kept)) (allowed_hits-SameView hits))

  links_tool-SameView :
      (args : List (Text × Argument)) → links_tool env v args ≡ links_tool env w args
  unfolding links_tool
  links_tool-SameView args =
      >>=-ext (or_fail (str_argument (codes "from") args) (missing (codes "from")))
        (λ from. readable_page v from >>= links) (λ from. readable_page w from >>= links)
        (λ from. ap (λ found. found >>= links) (same from))
    where
      links : Text → Result ToolError Text
      links content = ok (env.links_to_json (map path_only (extract_wikilinks content)))

  execute_gather_tool-SameView :
      (call : ToolCall) (loaded : Loaded)
      → execute_gather_tool env v call loaded ≡ execute_gather_tool env w call loaded
  unfolding execute_gather_tool
  execute_gather_tool-SameView call loaded =
      rw
        (
          search_tool-SameView call.arguments,
          links_tool-SameView call.arguments,
          read_tool-SameView loaded (str_argument (codes "path") call.arguments),
        )
        refl

  run_call-SameView : (call : ToolCall) (t : Turn) → run_call env v call t ≡ run_call env w call t
  unfolding run_call
  run_call-SameView call t = rw (execute_gather_tool-SameView call t.loaded) refl

  run_calls-SameView :
      (calls : List ToolCall) (t : Turn) → run_calls env v calls t ≡ run_calls env w calls t
  unfolding run_calls
  run_calls-SameView [] t = refl
  run_calls-SameView (call ∷ calls) t =
      ap (λ p. and_then p (run_calls env v calls)) (run_call-SameView call t)
      ∙ and_then-ext (run_call env w call t) (run_calls env v calls) (run_calls env w calls)
          (run_calls-SameView calls)

  pub run_turns-SameView :
      (turns : ℕ) (messages : List Message) (loaded : Loaded)
      → run_turns env v turns messages loaded ≡ run_turns env w turns messages loaded
  unfolding run_turns
  run_turns-SameView zero messages loaded = refl
  run_turns-SameView (suc turns) messages loaded = elim (Option-cases (env.llm messages)) [
    | inl e ↦ rw (run_turns, e) refl
    | inr ((content, []), e) ↦ rw (run_turns, e) refl
    | inr ((content, call ∷ calls), e) ↦
        rw (run_turns, e)
          (ap (λ t. turn_end t (λ u. run_turns env v turns u.messages u.loaded))
              (run_calls-SameView (call ∷ calls)
                (begin_turn messages content (call ∷ calls) loaded))
            ∙ turn_end-ext
                (run_calls env w (call ∷ calls) (begin_turn messages content (call ∷ calls) loaded))
                (λ u. run_turns env v turns u.messages u.loaded)
                (λ u. run_turns env w turns u.messages u.loaded)
                (λ u. run_turns-SameView turns u.messages u.loaded))
  ]
