-- ===== src/Retriever/Tests.antt =====
-- The retriever at concrete inputs: two wikis that differ only in a page of another group's.
use qpedia.Prelude.{
  ◌≡◌, refl, true, none, some, Option, [], ◌∷◌, ◌++◌, arith, Bool-cases, inl, inr, Result-cases,
}
use qpedia.Text.{Text, codes}
use qpedia.Core.Acl.{Acl}
use qpedia.Llm.{str, ToolCall}
use qpedia.Store.WikiRepo.{FileTree, read_page, read_file, join_path, path_eq}
use qpedia.Retriever.Access.{user_can_read_page}
use qpedia.Retriever.Links.{extract_wikilinks}
use qpedia.Retriever.Search.{Services}
use qpedia.Retriever.Gather.{GatheredPage, View, Env, Loaded, run_turns}
use qpedia.Retriever.Gather.Privacy.{SameView, shown}
use qpedia.Retriever.Gather.Budget.{IsLoaded, run_turns-IsLoaded}
use qpedia.Retriever.Chat.{ChatRequest, gather, chat}
use qpedia.Retriever.Chat.Readable.{IsServed, gather-IsServed}
use qpedia.Retriever.Chat.Same.{chat-SameView}
use qpedia.Retriever.Chat.Events.{IsAnswer, chat-IsAnswer}

abbrev services : Services
services = record { hybrid_search = none; search_text = λ q k. some []; scores = λ q hits. none }

abbrev call : Text → Text → ToolCall
call name path = record { id = codes "c"; name = name; arguments = (codes "path", str path) ∷ [] }

abbrev env : Env
env = record {
  services = services;
  llm = λ messages. some (
    [],
    call (codes "read_page") (codes "a.md")
        ∷ call (codes "read_page") (codes "hr.md")
        ∷ call (codes "done") []
        ∷ [],
  );
  hits_to_json = λ hits. [];
  links_to_json = λ links. [];
  render = λ e. [];
}

abbrev page : Text
page = codes "---\ntitle: A\nsource_ids: [s1]\n---\nText"

abbrev hidden : Text
hidden = codes "---\nsource_ids: [s2]\n---\nPay"

abbrev acls : Text → Option Acl
acls id = some (record { groups = (codes "staff-" ++ id) ∷ [] })

abbrev view : FileTree → View
view tree = record {
  wiki = record { tree = tree; head = tree; log = [] };
  source_acls = acls;
  user_groups = codes "staff-s1" ∷ [];
}

abbrev with_hidden : View
with_hidden = view ((codes "a.md" ∷ [], page) ∷ (codes "hr.md" ∷ [], hidden) ∷ [])

abbrev without_hidden : View
without_hidden = view ((codes "a.md" ∷ [], page) ∷ [])

abbrev request : ChatRequest
request = record { message = codes "who?"; history = []; max_pages = 5 }

abbrev loaded_page : GatheredPage
loaded_page = record { path = codes "a.md"; title = codes "A"; content = page }

abbrev nothing_loaded : Loaded
nothing_loaded = record { pages = []; total_bytes = 0 }

gather_test : gather env with_hidden request ≡ some (loaded_page ∷ [])
unfolding gather
gather_test = refl

gather-IsServed_example : IsServed with_hidden 8 (loaded_page ∷ [])
gather-IsServed_example = gather-IsServed env with_hidden request (loaded_page ∷ []) gather_test

run_turns-IsLoaded_example :
    IsLoaded with_hidden (record { pages = loaded_page ∷ []; total_bytes = 38 })
unfolding run_turns
run_turns-IsLoaded_example =
    run_turns-IsLoaded env with_hidden 6 [] nothing_loaded
      (record { pages = loaded_page ∷ []; total_bytes = 38 }) refl
      (record { readable = tt; few = omega arith; counted = refl; small = omega arith }) refl

chat-IsAnswer_example :
    IsAnswer (chat env (λ messages. some (codes "hi" ∷ [], true)) with_hidden request)
chat-IsAnswer_example =
    chat-IsAnswer env (λ messages. some (codes "hi" ∷ [], true)) with_hidden request

same_view : SameView with_hidden without_hidden
unfolding shown read_page read_file user_can_read_page
same_view path = elim (Result-cases (join_path path)) [
  | inr (x, e) ↦ rw (shown, read_page, e) refl
  | inl (p, e) ↦ elim (Bool-cases (path_eq (codes "a.md" ∷ []) p)) [
    | inl f ↦ rw (shown, read_page, e, read_file, f) refl
    | inr f ↦ elim (Bool-cases (path_eq (codes "hr.md" ∷ []) p)) [
      | inl g ↦ rw (shown, read_page, e, read_file, f, g) refl
      | inr g ↦ rw (shown, read_page, e, read_file, f, g) refl
    ]
  ]
]

chat-SameView_example :
    chat env (λ messages. some (codes "hi" ∷ [], true)) with_hidden request
    ≡ chat env (λ messages. some (codes "hi" ∷ [], true)) without_hidden request
chat-SameView_example =
    chat-SameView env (λ messages. some (codes "hi" ∷ [], true)) with_hidden without_hidden request
      same_view

-- A link in code is none, and the fence may stay open.
abbrev linked_page : Text
linked_page = codes "see [[ a.md ]], `[[b.md]]` and [[c.md]]\n```[[d.md]]"

linked_page_test : extract_wikilinks linked_page ≡ codes "a.md" ∷ codes "c.md" ∷ []
unfolding extract_wikilinks
linked_page_test = refl
