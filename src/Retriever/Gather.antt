-- ===== src/Retriever/Gather.antt =====
-- crates/qpedia-retriever/src/lib.rs, `gather` and `execute_gather_tool`: the bounded tool loop that
-- loads the pages for an answer. The map of loaded pages is a list with the latest page first; the
-- model and the rendering of results and errors are parameters.
pub mod Access
pub mod Budget
pub mod Privacy
use qpedia.Prelude.{
  ℕ, zero, suc, ◌+◌, ◌-◌, min, max, Bool, true, false, not, ◌&&◌, ◌||◌, Option, none, some, List,
  [], ◌∷◌, ◌++◌, map, ltb, leb, ◌==◌, if◌then◌else◌, is_empty, take, length, Result, ok, err, ◌>>=◌,
  ◌>>◌, reject_if, or_fail,
}
use qpedia.Text.{
  Text, codes, text_eq, byte_len, starts_with, strip_prefix, split_once, lines, trim, trim_start,
  trim_matches,
}
use qpedia.Llm.{Argument, ToolCall, Message, user, assistant, tool, str_argument, num_argument}
use qpedia.Store.WikiRepo.{Repo, CommitError, read_page}
use qpedia.Retriever.Access.{SourceAcls, frontmatter, user_can_read_page}
use qpedia.Retriever.Links.{extract_wikilinks, path_only}
use qpedia.Retriever.Search.{SearchHit, Services, do_search}

abbrev pub gather_turns : ℕ
gather_turns = 6

abbrev pub max_pages_loaded : ℕ
max_pages_loaded = 8

abbrev pub max_context_bytes : ℕ
max_context_bytes = 30000

abbrev pub max_tool_result_chars : ℕ
max_tool_result_chars = 6000

pub record GatheredPage : Type 0 where
  pub path : Text
  pub title : Text
  pub content : Text

-- What a caller may see: the wiki and the access lists of the sources, with the caller's groups.
pub record View : Type 0 where
  pub wiki : Repo
  pub source_acls : SourceAcls
  pub user_groups : List Text

pub data ToolError : Type 0 where
  missing not_found unknown_tool : Text → ToolError
  wiki_failed : CommitError → ToolError
  search_failed : ToolError

pub record Env : Type 0 where
  pub services : Services
  pub llm : List Message → Option (Text × List ToolCall)
  pub hits_to_json : List SearchHit → Text
  pub links_to_json : List Text → Text
  pub render : ToolError → Text

pub record Loaded : Type 0 where
  pub pages : List GatheredPage
  pub total_bytes : ℕ

title_in_lines : List Text → Option Text
unfolding strip_prefix trim trim_start trim_matches
title_in_lines [] = none
title_in_lines (line ∷ more) =
    let later = title_in_lines more in
    elim (strip_prefix (codes "title:") (trim_start line)) [
      | none ↦ later
      | some rest ↦ some (trim_matches b'\'' (trim_matches b'"' (trim rest)))
    ]

heading_in_lines : List Text → Option Text
unfolding strip_prefix trim
heading_in_lines [] = none
heading_in_lines (line ∷ more) =
    let later = heading_in_lines more in
    elim (strip_prefix (codes "# ") line) [ none ↦ later | some rest ↦ some (trim rest) ]

title_in_frontmatter : Option Text → Option Text
unfolding title_in_lines lines
title_in_frontmatter none = none
title_in_frontmatter (some fm) = title_in_lines (lines fm)

unfoldable pub extract_title : Text → Option Text
unfolding title_in_frontmatter heading_in_lines frontmatter lines
extract_title content = elim (title_in_frontmatter (frontmatter content)) [
  | some title ↦ some title
  | none ↦ heading_in_lines (lines content)
]

unfoldable pub is_loaded : Text → List GatheredPage → Bool
unfolding text_eq
is_loaded path [] = false
is_loaded path (p ∷ pages) = text_eq p.path path || is_loaded path pages

-- `HashMap::insert`
unfoldable pub insert_page : GatheredPage → List GatheredPage → List GatheredPage
unfolding text_eq
insert_page p [] = p ∷ []
insert_page p (q ∷ pages) =
    let rest = insert_page p pages in if text_eq q.path p.path then p ∷ pages else q ∷ rest

abbrev or_else : Text → Option Text → Text
or_else d none = d
or_else d (some s) = s

-- A page that the caller may read is tracked, at its first reading.
unfoldable pub track : Text → Text → Loaded → Loaded
unfolding extract_title is_loaded insert_page byte_len
track path content loaded =
    let truncated = take (max (max_context_bytes - loaded.total_bytes) 1024) content in
    if is_loaded path loaded.pages then loaded else record {
      pages =
          insert_page
            (record {
              path = path;
              title = or_else path (extract_title content);
              content = truncated;
            })
            loaded.pages;
      total_bytes = loaded.total_bytes + byte_len truncated;
    }

unfoldable pub page_of : Repo → Text → Result ToolError (Option Text)
unfolding read_page
page_of wiki path = elim (read_page wiki path) [ ok o ↦ ok o | err e ↦ err (wiki_failed e) ]

-- The page, if it is there and the caller may read it; else the same error for both.
unfoldable pub readable_page : View → Text → Result ToolError Text
unfolding page_of user_can_read_page
readable_page v path = do
  found ← page_of v.wiki path
  content ← or_fail found (not_found path)
  reject_if (not (user_can_read_page v.source_acls v.user_groups content)) (not_found path)
  ok content

-- The hits whose page can be read.
abbrev keep_hit : SearchHit → Result ToolError Text → List SearchHit → List SearchHit
keep_hit h (ok content) later = h ∷ later
keep_hit h (err e) later = later

unfoldable pub allowed_hits : View → List SearchHit → List SearchHit
unfolding readable_page
allowed_hits v [] = []
allowed_hits v (h ∷ hits) = keep_hit h (readable_page v h.path) (allowed_hits v hits)

abbrev pub tracked : Text → Loaded → Result ToolError Text → Loaded × Result ToolError Text
unfolding track
tracked path loaded (ok content) = (track path content loaded, ok content)
tracked path loaded (err e) = (loaded, err e)

read_tool : View → Loaded → Option Text → Loaded × Result ToolError Text
unfolding readable_page tracked
read_tool v loaded none = (loaded, err (missing (codes "path")))
read_tool v loaded (some path) = tracked path loaded (readable_page v path)

abbrev limit_of : Option ℕ → ℕ
limit_of none = 5
limit_of (some n) = min (max n 1) 20

search_tool : Env → View → List (Text × Argument) → Result ToolError Text
unfolding do_search allowed_hits str_argument num_argument
search_tool env v args = do
  hits ←
      or_fail
        (do_search env.services (or_else [] (str_argument (codes "query") args))
          (limit_of (num_argument (codes "limit") args)))
        search_failed
  ok (env.hits_to_json (allowed_hits v hits))

links_tool : Env → View → List (Text × Argument) → Result ToolError Text
unfolding readable_page str_argument extract_wikilinks path_only
links_tool env v args = do
  from ← or_fail (str_argument (codes "from") args) (missing (codes "from"))
  content ← readable_page v from
  ok (env.links_to_json (map path_only (extract_wikilinks content)))

unfoldable pub execute_gather_tool : Env → View → ToolCall → Loaded → Loaded × Result ToolError Text
unfolding text_eq str_argument search_tool read_tool links_tool
execute_gather_tool env v call loaded =
    if text_eq call.name (codes "search_wiki")
    then (loaded, search_tool env v call.arguments)
    else if text_eq call.name (codes "read_page")
    then read_tool v loaded (str_argument (codes "path") call.arguments)
    else if text_eq call.name (codes "follow_links")
    then (loaded, links_tool env v call.arguments)
    else (loaded, err (unknown_tool call.name))

truncate : Text → ℕ → Text
unfolding byte_len
truncate s limit =
    if leb (byte_len s) limit then s else take limit s ++ (10 ∷ codes "... [truncated]")

result_message : Env → ToolCall → Result ToolError Text → Message
unfolding truncate
result_message env call (ok r) = tool call.id (truncate r max_tool_result_chars) false
result_message env call (err e) = tool call.id (codes "error: " ++ env.render e) true

-- What the loop over a turn's calls changes.
pub record Turn : Type 0 where
  pub loaded : Loaded
  pub messages : List Message
  pub done_signaled : Bool

unfoldable pub is_full : Loaded → Bool
is_full loaded =
    leb max_pages_loaded (length loaded.pages) || leb max_context_bytes loaded.total_bytes

after_tool : Env → ToolCall → Turn → Loaded × Result ToolError Text → Turn
unfolding result_message is_full
after_tool env call t (loaded, result) = record {
  loaded = loaded;
  messages = t.messages ++ result_message env call result ∷ [];
  done_signaled = t.done_signaled || is_full loaded;
}

-- Whether the loop over the calls stops here.
unfoldable pub run_call : Env → View → ToolCall → Turn → Turn × Bool
unfolding text_eq execute_gather_tool after_tool is_full
run_call env v call t =
    let ran = after_tool env call t (execute_gather_tool env v call t.loaded) in
    if text_eq call.name (codes "done")
    then (
      record t {
        messages = t.messages ++ tool call.id (codes "ok") false ∷ [];
        done_signaled = true;
      },
      false,
    )
    else (ran, is_full ran.loaded)

-- The loop goes on with the next call, unless it stops.
abbrev pub and_then : Turn × Bool → (Turn → Turn) → Turn
and_then (t, true) more = t
and_then (t, false) more = more t

unfoldable pub run_calls : Env → View → List ToolCall → Turn → Turn
unfolding run_call
run_calls env v [] t = t
run_calls env v (call ∷ calls) t = and_then (run_call env v call t) (run_calls env v calls)

-- The next turn, unless this one signalled the end.
abbrev pub turn_end : Turn → (Turn → Option Loaded) → Option Loaded
turn_end t more = if t.done_signaled then some t.loaded else more t

abbrev pub begin_turn : List Message → Text → List ToolCall → Loaded → Turn
begin_turn messages content calls loaded = record {
  loaded = loaded;
  messages = messages ++ assistant content calls ∷ [];
  done_signaled = false;
}

-- The turns that are left. A model that fails ends the gathering with an error.
unfoldable pub run_turns : Env → View → ℕ → List Message → Loaded → Option Loaded
unfolding run_calls
run_turns env v zero messages loaded = some loaded
run_turns env v (suc turns) messages loaded = elim (env.llm messages) [
  | none ↦ none
  | some (content, []) ↦ some loaded
  | some (content, call ∷ calls) ↦
      turn_end (run_calls env v (call ∷ calls) (begin_turn messages content (call ∷ calls) loaded))
        (λ t. run_turns env v turns t.messages t.loaded)
]
