-- ===== src/Ingest/Pipeline.antt =====
-- crates/qpedia-ingest/src/handlers/{ingest,classify,distill,embed,archive}.rs: what an ingest job does to
-- the status of its source and to the wiki. The services are an environment that says what each of them
-- answers in this job; the source's row is there as long as the job runs. That the
-- wiki cannot be opened, or that a query for the source or the list of pages fails, is left out.
pub mod Triple
pub mod Progress
pub mod Ends
pub mod Guarded
pub mod Tests
use qpedia.Prelude.{
  ℕ, zero, suc, ◌==◌, Bool, true, false, not, List, [], ◌∷◌, if◌then◌else◌, is_empty, Result, ok,
  err,
}
use qpedia.Text.{Text, codes, contains_text}
use qpedia.Core.Wiki.{DiffBundle}
use qpedia.Core.Source.{
  SourceStatus, pending, extracting, extracted, classifying, classified, agent_distilling,
  agent_distilled, validating, validated, committing, committed, embedding, done, tainted, failed,
  dead,
}
use qpedia.Store.WikiRepo.{Repo, Faults, CommitError, commit_bundle}
use qpedia.Ingest.Agent.{AgentError}
use qpedia.Ingest.Validator.{ValidationError, validate}

unfoldable pub is_archive_mime : Text → Bool
unfolding contains_text
is_archive_mime mime =
    contains_text
      (codes "application/zip"
        ∷ codes "application/x-zip-compressed"
        ∷ codes "application/x-zip"
        ∷ [])
      mime

pub data Failure : Type 0 where
  update_failed audit_failed : SourceStatus → Failure
  blob_failed extract_failed expand_failed llm_failed embed_failed : Failure
  agent_failed : AgentError → Failure
  invalid : List ValidationError → Failure
  commit_failed : CommitError → Failure

pub record PipelineEnv : Type 0 where
  pub mime : Text
  pub has_llm : Bool
  pub has_embedder : Bool
  pub handles_mime : Bool
  pub update_fails : SourceStatus → Bool
  pub audit_fails : SourceStatus → Bool
  -- `get` of the original, `extract`, the two `put_text`, and the rest of `expand`
  pub original_fails : Bool
  pub extract_fails : Bool
  pub put_fails : Bool
  pub expand_fails : Bool
  -- `get` of the text, whether it is blank, and the model's answer with what is stored of it
  pub text_fails : Bool
  pub is_blank : Bool
  pub classifier_fails : Bool
  pub embed_fails : Bool
  pub agent : Repo → Result AgentError DiffBundle
  pub list_pages : Repo → List Text
  pub faults : Faults

pub record State : Type 0 where
  pub status : SourceStatus
  pub repo : Repo

abbrev pub Outcome : Type 0
Outcome = State × Result Failure (Unit {0})

-- The next statement, after `?`.
infixl 5 ◌▷◌
abbrev pub ◌▷◌ : Outcome → (State → Outcome) → Outcome
(st, ok _) ▷ next = next st
(st, err e) ▷ next = (st, err e)

abbrev pub fail_if : Bool → Failure → State → Outcome
fail_if true e st = (st, err e)
fail_if false e st = (st, ok tt)

abbrev pub committed_at : State → Repo × Result CommitError ℕ → Outcome
committed_at st (repo, ok n) = (record st { repo = repo }, ok tt)
committed_at st (repo, err e) = (record st { repo = repo }, err (commit_failed e))

pub data Step : Type 0 where
  continue stop : Step

-- `std::mem::discriminant`
abbrev pub discriminant : SourceStatus → ℕ
discriminant s = elim s [
  | pending ↦ 0
  | extracting ↦ 1
  | extracted ↦ 2
  | classifying ↦ 3
  | classified ↦ 4
  | agent_distilling ↦ 5
  | agent_distilled ↦ 6
  | validating ↦ 7
  | validated ↦ 8
  | committing ↦ 9
  | committed ↦ 10
  | embedding ↦ 11
  | done ↦ 12
  | tainted ↦ 13
  | failed ↦ 14
  | dead ↦ 15
]

pub data Ran : Type 0 where
  finished out_of_fuel : Ran
  stopped_by : Failure → Ran

-- The end of a round of the loop.
abbrev pub round_end : SourceStatus → Outcome × Step → (State → State × Ran) → State × Ran
round_end before ((st, err e), s) more = (st, stopped_by e)
round_end before ((st, ok _), stop) more = (st, finished)
round_end before ((st, ok _), continue) more =
    if discriminant st.status == discriminant before then (st, finished) else more st

module _ (env : PipelineEnv) where
  unfoldable pub update_status : SourceStatus → State → Outcome
  update_status s st =
      if env.update_fails s then (st, err (update_failed s)) else (record st { status = s }, ok tt)

  abbrev pub write_audit : SourceStatus → State → Outcome
  write_audit s st = fail_if (env.audit_fails s) (audit_failed s) st

  -- From the look at the extractors on.
  extract_text : State → Outcome
  unfolding update_status
  extract_text st =
      if not env.handles_mime
      then update_status tainted st ▷ write_audit tainted
      else fail_if env.extract_fails extract_failed st
        ▷ fail_if env.put_fails blob_failed
        ▷ update_status extracted
        ▷ write_audit extracted

  unfoldable pub extract_phase : State → Outcome
  unfolding update_status extract_text
  extract_phase st =
      update_status extracting st ▷ fail_if env.original_fails blob_failed ▷ extract_text

  unfoldable pub expand : State → Outcome
  unfolding update_status
  expand st =
      update_status extracting st
      ▷ fail_if env.original_fails blob_failed
      ▷ fail_if env.expand_fails expand_failed
      ▷ update_status done
      ▷ write_audit done

  -- From the test for a blank text on.
  classify_text : State → Outcome
  unfolding update_status
  classify_text st =
      if env.is_blank
      then update_status classified st ▷ write_audit classified
      else fail_if env.classifier_fails llm_failed st
        ▷ update_status classified
        ▷ write_audit classified

  unfoldable pub classify : State → Outcome
  unfolding update_status classify_text
  classify st = update_status classifying st ▷ fail_if env.text_fails blob_failed ▷ classify_text

  commit_all : DiffBundle → State → Outcome
  unfolding commit_bundle
  commit_all bundle st = committed_at st (commit_bundle env.faults bundle st.repo)

  unfoldable pub report_errors : DiffBundle → State → List ValidationError
  unfolding validate
  report_errors bundle st = (validate bundle (env.list_pages st.repo)).errors

  -- A bundle with operations.
  commit_valid : DiffBundle → State → Outcome
  unfolding update_status report_errors commit_all
  commit_valid bundle st =
      fail_if (not (is_empty (report_errors bundle st))) (invalid (report_errors bundle st)) st
      ▷ commit_all bundle
      ▷ update_status committed
      ▷ write_audit committed

  land : State → Result AgentError DiffBundle → Outcome
  unfolding update_status commit_valid
  land st (err e) = (st, err (agent_failed e))
  land st (ok bundle) =
      if is_empty bundle.operations then update_status committed st else commit_valid bundle st

  run_agent : State → Outcome
  unfolding land
  run_agent st = land st (env.agent st.repo)

  unfoldable pub distill : State → Outcome
  unfolding update_status run_agent
  distill st = update_status agent_distilling st ▷ run_agent

  unfoldable pub embed : State → Outcome
  unfolding update_status
  embed st =
      if not env.has_embedder
      then update_status done st
      else update_status embedding st
        ▷ fail_if env.embed_fails embed_failed
        ▷ update_status done
        ▷ write_audit done

  unfoldable pub taint : State → Outcome
  unfolding update_status
  taint st = update_status tainted st ▷ write_audit tainted

  -- One step: what it does, and whether the loop may go on.
  unfoldable pub step_once : State → Outcome × Step
  unfolding is_archive_mime extract_phase expand classify distill embed taint
  step_once st = elim st.status [
    | pending ↦ (if is_archive_mime env.mime then expand st else extract_phase st, continue)
    | extracting ↦ (if is_archive_mime env.mime then expand st else extract_phase st, continue)
    | failed ↦ (if is_archive_mime env.mime then expand st else extract_phase st, continue)
    | extracted ↦ if env.has_llm then (classify st, continue) else (taint st, stop)
    | classifying ↦ if env.has_llm then (classify st, continue) else (taint st, stop)
    | classified ↦ if env.has_llm then (distill st, continue) else (taint st, stop)
    | agent_distilling ↦ if env.has_llm then (distill st, continue) else (taint st, stop)
    | committed ↦ (embed st, continue)
    | embedding ↦ (embed st, continue)
    | _ ↦ ((st, ok tt), stop)
  ]

  unfoldable pub run : ℕ → State → State × Ran
  unfolding step_once
  run zero st = (st, out_of_fuel)
  run (suc fuel) st = round_end st.status (step_once st) (run fuel)
