-- ===== src/Ingest/Agent.antt =====
-- crates/qpedia-ingest/src/agent.rs. The model (`llm`), the tools that only read other services
-- (`search_wiki`, `list_pages`, `read_source`) and the rendering of an error are parameters; of a
-- tool's arguments the string fields are kept.
pub mod Staging
pub mod Budget
pub mod Handover
pub mod Findings
pub mod Tests
use qpedia.Prelude.{
  ℕ, zero, suc, ◌+◌, Bool, true, false, not, ◌&&◌, ◌||◌, Option, none, some, List, [], ◌∷◌, ◌++◌,
  ltb, leb, ◌==◌, if◌then◌else◌, is_empty, any, take, length, Result, ok, err, ◌>>=◌, ◌>>◌,
  reject_if, or_fail,
}
use qpedia.Text.{
  Text, codes, text_eq, contains_text, byte_len, starts_with, strip_prefix, ends_with, contains,
  split_once, trim_start,
}
use qpedia.Llm.{Argument, ToolCall, Message, user, assistant, tool, str_argument}
use qpedia.Core.Wiki.{DiffOp, create, patch, delete, link, DiffBundle}
use qpedia.Store.WikiRepo.{Repo, CommitError, read_page}
use qpedia.Ingest.Tools.{
  StagedOps, nothing_staged, ToolError, unknown_tool, require_str, argument_or_empty, Stamp,
  read_staged, propose_new, propose_patch,
}

abbrev pub max_turns : ℕ
max_turns = 18

abbrev pub max_ops : ℕ
max_ops = 20

abbrev pub max_bundle_bytes : ℕ
max_bundle_bytes = 512000

abbrev pub max_tool_result_chars : ℕ
max_tool_result_chars = 6000

unfoldable pub truncate : Text → ℕ → Text
unfolding byte_len
truncate s limit =
    if leb (byte_len s) limit then s else take limit s ++ (10 ∷ codes "... [truncated]")

abbrev staged_ok : StagedOps → Result ToolError StagedOps → StagedOps × Result ToolError Text
staged_ok staged (ok staged') = (staged', ok (codes "ok"))
staged_ok staged (err e) = (staged, err e)

-- What the agent's environment does: the model's next turn, the tools that only read, the stamp of the
-- page that is staged after so many others, and the text of an error.
pub record Deps : Type 0 where
  pub wiki : Repo
  pub llm : List Message → Option (Text × List ToolCall)
  pub read_tool : ToolCall → Result ToolError Text
  pub stamp : ℕ → Stamp
  pub render : ToolError → Text

is_read_tool : Text → Bool
unfolding contains_text
is_read_tool name =
    contains_text (codes "search_wiki" ∷ codes "list_pages" ∷ codes "read_source" ∷ []) name

unfoldable pub execute_tool : Deps → ToolCall → StagedOps → StagedOps × Result ToolError Text
unfolding is_read_tool text_eq require_str read_staged propose_new propose_patch
execute_tool deps call staged =
    if is_read_tool call.name
    then (staged, deps.read_tool call)
    else if text_eq call.name (codes "read_page")
    then (
      staged,
      require_str call.arguments (codes "path") >>= λ path. read_staged deps.wiki path staged.ops,
    )
    else if text_eq call.name (codes "propose_new")
    then staged_ok staged
        (propose_new deps.wiki (deps.stamp (length staged.ops)) call.arguments staged)
    else if text_eq call.name (codes "propose_patch")
    then staged_ok staged (propose_patch deps.wiki call.arguments staged)
    else (staged, err (unknown_tool call.name))

pub data AgentError : Type 0 where
  llm_failed no_tool_call op_budget byte_cap turns_exhausted : AgentError

result_message : Deps → ToolCall → Result ToolError Text → Message
unfolding truncate
result_message deps call (ok r) = tool call.id (truncate r max_tool_result_chars) false
result_message deps call (err e) = tool call.id (codes "error: " ++ deps.render e) true

-- What the loop over a turn's tool calls changes.
pub record Turn : Type 0 where
  pub staged : StagedOps
  pub messages : List Message
  pub done_summary : Option Text

unfoldable pub run_call : Deps → ToolCall → Turn → Result AgentError Turn
unfolding execute_tool result_message argument_or_empty text_eq
run_call deps call t =
    if text_eq call.name (codes "done")
    then ok (record {
      staged = t.staged;
      messages = t.messages ++ tool call.id (codes "ok") false ∷ [];
      done_summary = some (argument_or_empty (codes "summary") call.arguments);
    })
    else let (staged, result) = execute_tool deps call t.staged in
      do
        reject_if (ltb max_ops (length staged.ops)) op_budget
        reject_if (ltb max_bundle_bytes staged.bytes) byte_cap
        ok (record {
          staged = staged;
          messages = t.messages ++ result_message deps call result ∷ [];
          done_summary = t.done_summary;
        })

unfoldable pub run_calls : Deps → List ToolCall → Turn → Result AgentError Turn
unfolding run_call
run_calls deps [] t = ok t
run_calls deps (call ∷ calls) t = run_call deps call t >>= run_calls deps calls

-- The end of a turn: with `done` the bundle is ready.
turn_end : Text → Turn → Result AgentError DiffBundle → Result AgentError DiffBundle
turn_end source_id t next = elim t.done_summary [
  | none ↦ next
  | some summary ↦
      ok (record { ingest_id = source_id; operations = t.staged.ops; summary = summary })
]

-- The turns that are left, from the messages and the staged operations on.
unfoldable pub run_turns : Deps → Text → ℕ → List Message → StagedOps → Result AgentError DiffBundle
unfolding run_calls turn_end
run_turns deps source_id zero messages staged = err turns_exhausted
run_turns deps source_id (suc turns) messages staged = do
  (content, calls) ← or_fail (deps.llm messages) llm_failed
  reject_if (is_empty calls) no_tool_call
  t ← run_calls deps calls (record {
    staged = staged;
    messages = messages ++ assistant content calls ∷ [];
    done_summary = none;
  })
  turn_end source_id t (run_turns deps source_id turns t.messages t.staged)

-- The system prompt, which is the same in each turn, is part of `llm`.
unfoldable pub run_agent : Deps → Text → Text → Result AgentError DiffBundle
unfolding run_turns
run_agent deps source_id user_msg =
    run_turns deps source_id max_turns (user user_msg ∷ []) nothing_staged
