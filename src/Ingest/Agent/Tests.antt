-- ===== src/Ingest/Agent/Tests.antt =====
-- The agent at concrete inputs: a model that proposes a page, changes it, and is done.
use qpedia.Prelude.{
  ◌<◌, ◌++◌, false, ℕ, zero, suc, ◌+◌, ◌*◌, ◌≤◌, ◌≡◌, refl, none, some, Option, List, [], ◌∷◌, ok,
  err, arith,
}
use qpedia.Text.{Text, codes, byte_len, strip_prefix, trim_start}
use qpedia.Llm.{Argument, str, ToolCall, Message, user}
use qpedia.Core.Wiki.{create, patch, DiffBundle}
use qpedia.Store.WikiRepo.{Repo, Faults, CommitError, check_ops, commit_bundle}
use qpedia.Store.WikiRepo.Checks.{ops_bytes}
use qpedia.Ingest.Tools.{
  Stamp, StagedOps, read_staged, stage_patch, staged_page, nothing_staged, require_str, check_path,
  is_taken, max_page_bytes, propose_new, propose_patch,
}
use qpedia.Ingest.Agent.{Deps, run_agent}
use qpedia.Ingest.Agent.Budget.{IsAccepted, run_agent-IsAccepted}
use qpedia.Ingest.Agent.Handover.{check_ops-run_agent}
use qpedia.Ingest.Agent.Findings.{read_staged-stage_patch, commit_bundle-propose_new}

abbrev empty_wiki : Repo
empty_wiki = record { tree = []; head = []; log = [] }

abbrev call : Text → List (Text × Argument) → ToolCall
call name arguments = record { id = codes "c"; name = name; arguments = arguments }

abbrev scripted : List Message → Option (Text × List ToolCall)
scripted (user s ∷ []) = some (
  [],
  call (codes "propose_new") (
        (codes "path", str (codes "a.md"))
        ∷ (codes "content", str (codes "---\ntitle: A\n---\n"))
        ∷ [])
      ∷ call (codes "propose_patch")
          ((codes "path", str (codes "a.md")) ∷ (codes "new_content", str (codes "b")) ∷ [])
      ∷ [],
)
scripted _ = some ([], call (codes "done") ((codes "summary", str (codes "ok")) ∷ []) ∷ [])

abbrev deps : Deps
deps = record {
  wiki = empty_wiki;
  llm = scripted;
  read_tool = λ c. ok [];
  stamp = λ n. record { id = codes "i"; now = codes "t" };
  render = λ e. [];
}

abbrev full_page : Text
full_page = codes "---\ntitle: A\nid: i\ncreated_at: t\nupdated_at: t\n---\n"

abbrev bundle : DiffBundle
bundle = record {
  ingest_id = codes "7";
  operations = create (codes "a.md") full_page [] ∷ patch (codes "a.md") (codes "b") [] ∷ [];
  summary = codes "ok";
}

run_test : run_agent deps (codes "7") (codes "go") ≡ ok bundle
unfolding run_agent
run_test = refl

run_agent-IsAccepted_example : IsAccepted (codes "7") bundle
run_agent-IsAccepted_example = run_agent-IsAccepted deps (codes "7") (codes "go") bundle run_test

check_ops-run_agent_example :
    (check_ops bundle.operations 0 ≡ ok (ops_bytes bundle.operations))
    × (ops_bytes bundle.operations ≤ 512000)
unfolding byte_len
check_ops-run_agent_example =
    check_ops-run_agent deps (codes "7") (codes "go") bundle run_test (omega arith, (tt, tt))

abbrev staged : StagedOps
staged = record {
  ops = create (codes "a.md") (codes "old") [] ∷ [];
  created_paths = codes "a.md" ∷ [];
  patched_paths = [];
  bytes = 3;
}

found_test : staged_page (codes "a.md") staged.ops ≡ some (codes "old")
unfolding staged_page
found_test = refl

read_staged-stage_patch_example :
    read_staged empty_wiki
      (codes "a.md")
      (stage_patch empty_wiki (codes "a.md") (codes "new") [] staged).ops
    ≡ ok (codes "old")
read_staged-stage_patch_example =
    read_staged-stage_patch empty_wiki (codes "a.md") (codes "old") (codes "new") [] staged
      found_test

abbrev letters : ℕ → Text
letters zero = []
letters (suc n) = b'a' ∷ letters n

letters-byte_len : (n : ℕ) → byte_len (letters n) ≡ n
unfolding byte_len
letters-byte_len zero = refl
letters-byte_len (suc n) = omega (arith, letters-byte_len n)

letter-IsBare : (s : Text) → strip_prefix (codes "---") (trim_start (b'a' ∷ s)) ≡ none
unfolding strip_prefix trim_start
letter-IsBare s = refl

abbrev stamp : Stamp
stamp = record { id = codes "01J"; now = codes "2026-01-01" }

abbrev nearly_full : Text
nearly_full = b'a' ∷ letters 51179

nearly_full-byte_len : byte_len nearly_full ≡ 51180
unfolding byte_len
nearly_full-byte_len = omega (arith, letters-byte_len 51179)

abbrev no_faults : Faults
no_faults = record { write_fails = λ p. false; git_fails = λ c. false }

abbrev nearly_full_args : List (Text × Argument)
nearly_full_args = (codes "path", str (codes "a.md")) ∷ (codes "content", str nearly_full) ∷ []

takes_path : require_str nearly_full_args (codes "path") ≡ ok (codes "a.md")
unfolding require_str
takes_path = refl

takes_content : require_str nearly_full_args (codes "content") ≡ ok nearly_full
unfolding require_str
takes_content = refl

path_passes : check_path (codes "a.md") ≡ ok tt
unfolding check_path
path_passes = refl

path_is_free : is_taken empty_wiki (codes "a.md") nothing_staged ≡ ok false
unfolding is_taken
path_is_free = refl

page_is_near_limit :
    max_page_bytes < 39 + byte_len stamp.id + 2 * byte_len stamp.now + byte_len nearly_full
unfolding byte_len
page_is_near_limit = omega (arith, nearly_full-byte_len)

commit_bundle-propose_new_example :
    (staged' : StagedOps) × (propose_new empty_wiki stamp nearly_full_args nothing_staged
      ≡ ok staged')
    × (e : CommitError) × (commit_bundle no_faults
          (record { ingest_id = codes "7"; operations = staged'.ops ++ []; summary = [] })
          empty_wiki
        ≡ (empty_wiki, err e))
commit_bundle-propose_new_example =
    commit_bundle-propose_new empty_wiki empty_wiki no_faults stamp nearly_full_args nothing_staged
      (codes "a.md") nearly_full (codes "7") [] [] takes_path takes_content path_passes path_is_free
      (letter-IsBare (letters 51179)) (omega (arith, nearly_full-byte_len)) page_is_near_limit

abbrev guided_wiki : Repo
guided_wiki = record { tree = (codes "QPEDIA.md" ∷ [], codes "guide") ∷ []; head = []; log = [] }

abbrev guide_args : List (Text × Argument)
guide_args =
    (codes "path", str (codes "./QPEDIA.md")) ∷ (codes "new_content", str (codes "mine")) ∷ []

stages_other_name :
    propose_patch guided_wiki guide_args nothing_staged
    ≡ ok (stage_patch guided_wiki (codes "./QPEDIA.md") (codes "mine") [] nothing_staged)
unfolding propose_patch
stages_other_name = refl
