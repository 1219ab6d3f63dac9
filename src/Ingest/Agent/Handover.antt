-- ===== src/Ingest/Agent/Handover.antt =====
-- The agent's bundle at `commit_bundle`, which checks it again.
use qpedia.Prelude.{ℕ, ap, ◌∙◌, arith, ◌≤◌, ◌≡◌, List, [], ◌∷◌, All, ok}
use qpedia.Text.{Text, byte_len}
use qpedia.Core.Wiki.{DiffOp, create, patch, delete, link, DiffBundle}
use qpedia.Store.WikiRepo.{check_ops}
use qpedia.Store.WikiRepo.Checks.{IsFit, ops_bytes, check_ops_of_fit}
use qpedia.Ingest.Tools.{max_page_bytes}
use qpedia.Ingest.Agent.{Deps, run_agent}
use qpedia.Ingest.Agent.Staging.{IsProposal}
use qpedia.Ingest.Agent.Budget.{run_agent-IsAccepted}

-- A page that is made is at most 50 KB with its frontmatter.
abbrev pub IsSmall : DiffOp → Type 0
IsSmall (create path content rationale) = byte_len content ≤ max_page_bytes
IsSmall _ = Unit

IsFit-IsProposal : (op : DiffOp) → IsProposal op → IsSmall op → IsFit op
IsFit-IsProposal (create path content rationale) (_, safe) small = (safe, small)
IsFit-IsProposal (patch path new_content rationale) (_, safe, small) _ = (safe, small)
IsFit-IsProposal (delete path rationale) h _ = absurd h
IsFit-IsProposal (link from to kind) h _ = absurd h

All-IsFit : (ops : List DiffOp) → All IsProposal ops → All IsSmall ops → All IsFit ops
All-IsFit [] h k = tt
All-IsFit (op ∷ ops) (h, hs) (k, ks) = (IsFit-IsProposal op h k, All-IsFit ops hs ks)

-- If the pages that the agent made are still at most 50 KB with the frontmatter that was added to
-- them, the checks of `commit_bundle` accept all operations of its bundle, and their bytes are within
-- the limit on a bundle.
pub check_ops-run_agent :
    (deps : Deps) (source_id user_msg : Text) (bundle : DiffBundle)
    → run_agent deps source_id user_msg ≡ ok bundle
    → All IsSmall bundle.operations
    → (check_ops bundle.operations 0 ≡ ok (ops_bytes bundle.operations))
      × (ops_bytes bundle.operations ≤ 512000)
check_ops-run_agent deps source_id user_msg bundle h small =
    let accepted = run_agent-IsAccepted deps source_id user_msg bundle h in
    let checked =
      check_ops_of_fit bundle.operations 0 (All-IsFit bundle.operations accepted.each small) in
    (checked ∙ ap (λ (n : ℕ). ok n) (omega arith), accepted.total)
