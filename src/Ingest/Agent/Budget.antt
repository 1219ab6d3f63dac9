-- ===== src/Ingest/Agent/Budget.antt =====
-- What the agent's loop returns.
use qpedia.Prelude.{
  ℕ, zero, suc, ◌≤◌, ◌≡◌, refl, inl, inr, Bool, true, false, List, [], ◌∷◌, arith, ltb, is_empty,
  All, length, Result, ok, err, ◌>>◌, reject_if, or_fail, >>=-eq-ok, ok-injective, Bool-cases,
  Option-cases, not_ltb→le, subst,
}
use qpedia.Text.{Text, codes, text_eq}
use qpedia.Llm.{ToolCall, Message}
use qpedia.Core.Wiki.{DiffBundle}
use qpedia.Store.WikiRepo.Checks.{ops_bytes}
use qpedia.Ingest.Tools.{StagedOps, nothing_staged, ToolError, propose_new, propose_patch}
use qpedia.Ingest.Agent.{
  op_budget, byte_cap, llm_failed, no_tool_call, max_turns, Deps, Turn, AgentError, max_ops,
  max_bundle_bytes, staged_ok, execute_tool, run_call, run_calls, turn_end, run_turns, run_agent,
  is_read_tool,
}
use qpedia.Ingest.Agent.Staging.{
  IsProposal, IsStaged, new-IsStaged, replacement-IsStaged, propose_new-IsNew,
  propose_patch-IsReplacement,
}

-- Within the budgets of the agent.
pub record IsWithinBudget (staged : StagedOps) : Type 0 where
  pub staged_well : IsStaged staged
  pub few : length staged.ops ≤ max_ops
  pub small : staged.bytes ≤ max_bundle_bytes

staged_ok-IsStaged :
    (staged : StagedOps) (r : Result ToolError StagedOps)
    → IsStaged staged
    → ((staged' : StagedOps) → r ≡ ok staged' → IsStaged staged')
    → IsStaged (staged_ok staged r).0
staged_ok-IsStaged staged (ok staged') s h = h staged' refl
staged_ok-IsStaged staged (err e) s h = s

execute_tool-IsStaged :
    (deps : Deps) (call : ToolCall) (staged : StagedOps)
    → IsStaged staged
    → IsStaged (execute_tool deps call staged).0
unfolding execute_tool
execute_tool-IsStaged deps call staged s = elim (Bool-cases (is_read_tool call.name)) [
  | inl a ↦ rw a s
  | inr a ↦ elim (Bool-cases (text_eq call.name (codes "read_page"))) [
    | inl b ↦ rw (a, b) s
    | inr b ↦ elim (Bool-cases (text_eq call.name (codes "propose_new"))) [
      | inl c ↦
          rw (a, b, c)
            (staged_ok-IsStaged staged
              (propose_new deps.wiki (deps.stamp (length staged.ops)) call.arguments staged) s
              (λ staged' e.
                new-IsStaged deps.wiki (deps.stamp (length staged.ops)) staged staged'
                  (propose_new-IsNew deps.wiki (deps.stamp (length staged.ops)) call.arguments
                    staged staged' e)
                  s))
      | inr c ↦ elim (Bool-cases (text_eq call.name (codes "propose_patch"))) [
        | inl d ↦
            rw (a, b, c, d)
              (staged_ok-IsStaged staged (propose_patch deps.wiki call.arguments staged) s
                (λ staged' e.
                  replacement-IsStaged deps.wiki staged staged'
                    (propose_patch-IsReplacement deps.wiki call.arguments staged staged' e) s))
        | inr d ↦ rw (a, b, c, d) s
      ]
    ]
  ]
]

-- A test that the code went past without an early return.
passed :
    (b : Bool) (e : AgentError) {B : Type 0} (k : Result AgentError B) {x : B}
    → (reject_if b e >> k) ≡ ok x
    → (b ≡ false) × (k ≡ ok x)
passed true e k h = cc
passed false e k h = (refl, h)

run_call-IsWithinBudget :
    (deps : Deps) (call : ToolCall) (t t' : Turn)
    → IsWithinBudget t.staged
    → run_call deps call t ≡ ok t'
    → IsWithinBudget t'.staged
unfolding run_call
run_call-IsWithinBudget deps call t t' w h = elim (Bool-cases (text_eq call.name (codes "done"))) [
  | inl e ↦ subst (λ (u : Turn). IsWithinBudget u.staged) (ok-injective (rw (e, run_call) at h)) w
  | inr e ↦
      let staged = (execute_tool deps call t.staged).0 in
      let (op_test, h1) =
        passed (ltb max_ops (length staged.ops)) op_budget _ (rw (e, run_call) at h) in
      let (byte_test, h2) = passed (ltb max_bundle_bytes staged.bytes) byte_cap _ h1 in
      subst (λ (u : Turn). IsWithinBudget u.staged) (ok-injective h2)
        (record {
          staged_well = execute_tool-IsStaged deps call t.staged w.staged_well;
          few = not_ltb→le max_ops (length staged.ops) op_test;
          small = not_ltb→le max_bundle_bytes staged.bytes byte_test;
        })
]

run_calls-IsWithinBudget :
    (deps : Deps) (calls : List ToolCall) (t t' : Turn)
    → IsWithinBudget t.staged
    → run_calls deps calls t ≡ ok t'
    → IsWithinBudget t'.staged
unfolding run_calls
run_calls-IsWithinBudget deps [] t t' w h =
    subst (λ (u : Turn). IsWithinBudget u.staged) (ok-injective h) w
run_calls-IsWithinBudget deps (call ∷ calls) t t' w h =
    let (u, first, rest) = >>=-eq-ok (run_call deps call t) (run_calls deps calls) h in
    run_calls-IsWithinBudget deps calls u t' (run_call-IsWithinBudget deps call t u w first) rest

-- A bundle that the agent may hand over.
pub record IsAccepted (source_id : Text) (bundle : DiffBundle) : Type 0 where
  pub ingest : bundle.ingest_id ≡ source_id
  pub op_count : length bundle.operations ≤ max_ops
  pub total : ops_bytes bundle.operations ≤ max_bundle_bytes
  pub each : All IsProposal bundle.operations

turn_end-IsAccepted :
    (source_id : Text) (t : Turn) (next : Result AgentError DiffBundle) (bundle : DiffBundle)
    → IsWithinBudget t.staged
    → (next ≡ ok bundle → IsAccepted source_id bundle)
    → turn_end source_id t next ≡ ok bundle
    → IsAccepted source_id bundle
unfolding turn_end
turn_end-IsAccepted source_id t next bundle w later h = elim (Option-cases t.done_summary) [
  | inl e ↦ later (rw (e, turn_end) at h)
  | inr (summary, e) ↦ subst (IsAccepted source_id) (ok-injective (rw (e, turn_end) at h)) (record {
    ingest = refl;
    op_count = w.few;
    total = subst (λ n. n ≤ max_bundle_bytes) w.staged_well.sized w.small;
    each = w.staged_well.proposals;
  })
]

run_turns-IsAccepted :
    (deps : Deps) (source_id : Text) (turns : ℕ) (messages : List Message) (staged : StagedOps)
    (bundle : DiffBundle)
    → IsWithinBudget staged
    → run_turns deps source_id turns messages staged ≡ ok bundle
    → IsAccepted source_id bundle
unfolding run_turns
run_turns-IsAccepted deps source_id zero messages staged bundle w h = cc
run_turns-IsAccepted deps source_id (suc turns) messages staged bundle w h =
    let ((content, calls), _, h1) = >>=-eq-ok (or_fail (deps.llm messages) llm_failed) _ h in
    let (_, h2) = passed (is_empty calls) no_tool_call _ h1 in
    let (t, ran, h3) = >>=-eq-ok (run_calls deps calls _) _ h2 in
    let within = run_calls-IsWithinBudget deps calls _ t w ran in
    turn_end-IsAccepted source_id t _ bundle within
      (run_turns-IsAccepted deps source_id turns t.messages t.staged bundle within) h3

-- Whatever the model and the tools answer, a bundle that the agent returns is for its source, has at most
-- 20 operations of at most 512000 bytes together, and each of them makes or replaces a markdown page
-- under a path that the wiki's `safe_join` accepts and that is not the text `QPEDIA.md`; other texts that
-- lead to that page, such as `./QPEDIA.md`, are not excluded.
pub run_agent-IsAccepted :
    (deps : Deps) (source_id user_msg : Text) (bundle : DiffBundle)
    → run_agent deps source_id user_msg ≡ ok bundle
    → IsAccepted source_id bundle
unfolding run_agent
run_agent-IsAccepted deps source_id user_msg bundle h =
    run_turns-IsAccepted deps source_id max_turns _ nothing_staged bundle
      (record {
        staged_well = record { sized = refl; proposals = tt; created = tt };
        few = omega arith;
        small = omega arith;
      })
      h
