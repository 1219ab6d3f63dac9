-- ===== src/Ingest/Pipeline/Progress.antt =====
-- Each phase of the pipeline leaves fewer phases to do.
use qpedia.Prelude.{ℕ, ◌<◌, Bool, not, Bool-cases, inl, inr, Result, ok, err, arith, is_empty}
use qpedia.Core.Wiki.{DiffBundle}
use qpedia.Core.Source.{
  SourceStatus, pending, extracting, extracted, classifying, classified, agent_distilling,
  agent_distilled, validating, validated, committing, committed, embedding, done, tainted, failed,
  dead,
}
use qpedia.Store.WikiRepo.{Repo, CommitError, commit_bundle}
use qpedia.Ingest.Agent.{AgentError}
use qpedia.Ingest.Pipeline.{
  PipelineEnv, State, Outcome, Failure, invalid, ◌▷◌, fail_if, update_status, write_audit,
  extract_text, classify_text, report_errors, commit_all, run_agent, extract_phase, expand,
  classify, committed_at, commit_valid, land, distill, embed, blob_failed, extract_failed,
  expand_failed, llm_failed, embed_failed, audit_failed,
}
use qpedia.Ingest.Pipeline.Triple.{Leaves, Leaves-▷, Leaves-fail_if, Leaves-update_status}

-- The phases that are left for a source.
abbrev pub left : SourceStatus → ℕ
left pending = 4
left extracting = 4
left failed = 4
left extracted = 3
left classifying = 3
left classified = 2
left agent_distilling = 2
left committed = 1
left embedding = 1
left _ = 0

-- A status that a job goes on from, or one of the two that end the pipeline.
abbrev pub IsDriven : SourceStatus → Type 0
IsDriven agent_distilled = ⊥
IsDriven validating = ⊥
IsDriven validated = ⊥
IsDriven committing = ⊥
IsDriven dead = ⊥
IsDriven _ = Unit

abbrev pub IsEnd : SourceStatus → Type 0
IsEnd done = Unit
IsEnd tainted = Unit
IsEnd _ = ⊥

abbrev pub Driven : State → Type 0
Driven st = IsDriven st.status

abbrev pub Below : ℕ → State → Type 0
Below n st = (left st.status < n) × IsDriven st.status

module _ (env : PipelineEnv) where
  entered :
      (s : SourceStatus) (st : State)
      → IsDriven s
      → Driven st
      → Leaves Driven Driven (update_status env s st)
  entered s st d k = Leaves-update_status Driven Driven env s st d k

  checked :
      (m : Outcome) (b : Bool) (e : Failure)
      → Leaves Driven Driven m
      → Leaves Driven Driven (m ▷ fail_if b e)
  checked m b e h =
      Leaves-▷ Driven Driven Driven m (fail_if b e) h
        (λ u d. Leaves-fail_if Driven Driven b e u d d)

  -- A new status, and its record in the audit log.
  settled :
      (n : ℕ) (s : SourceStatus) (m : Outcome)
      → left s < n
      → IsDriven s
      → Leaves Driven Driven m
      → Leaves (Below n) Driven (m ▷ update_status env s ▷ write_audit env s)
  settled n s m h d k =
      Leaves-▷ (Below n) (Below n) Driven (m ▷ update_status env s) (write_audit env s)
        (Leaves-▷ Driven (Below n) Driven m (update_status env s) k
          (λ u e. Leaves-update_status (Below n) Driven env s u (h, d) e))
        (λ u b. Leaves-fail_if (Below n) Driven (env.audit_fails s) (audit_failed s) u b b.1)

  settled_at :
      (n : ℕ) (s : SourceStatus) (st : State)
      → left s < n
      → IsDriven s
      → Driven st
      → Leaves (Below n) Driven (update_status env s st ▷ write_audit env s)
  settled_at n s st h d k = settled n s (st, ok tt) h d k

  extract_text-Below : (st : State) → Driven st → Leaves (Below 4) Driven (extract_text env st)
  unfolding extract_text
  extract_text-Below st d = elim (Bool-cases env.handles_mime) [
    | inl h ↦
        rw (extract_text, h)
          (settled 4 extracted
            (fail_if env.extract_fails extract_failed st ▷ fail_if env.put_fails blob_failed)
            (omega arith) tt
            (checked (fail_if env.extract_fails extract_failed st) env.put_fails blob_failed
              (checked (st, ok tt) env.extract_fails extract_failed d)))
    | inr h ↦ rw (extract_text, h) (settled_at 4 tainted st (omega arith) tt d)
  ]

  opened :
      (s : SourceStatus) (b : Bool) (e : Failure) (st : State)
      → IsDriven s
      → Driven st
      → Leaves Driven Driven (update_status env s st ▷ fail_if b e)
  opened s b e st d k = checked (update_status env s st) b e (entered s st d k)

  pub extract_phase-Below :
      (st : State) → Driven st → Leaves (Below 4) Driven (extract_phase env st)
  unfolding extract_phase
  extract_phase-Below st d =
      Leaves-▷ Driven (Below 4) Driven
        (update_status env extracting st ▷ fail_if env.original_fails blob_failed)
        (extract_text env) (opened extracting env.original_fails blob_failed st tt d)
        extract_text-Below

  pub expand-Below : (st : State) → Driven st → Leaves (Below 4) Driven (expand env st)
  unfolding expand
  expand-Below st d =
      settled 4 done
        (update_status env extracting st
          ▷ fail_if env.original_fails blob_failed
          ▷ fail_if env.expand_fails expand_failed)
        (omega arith) tt
        (checked (update_status env extracting st ▷ fail_if env.original_fails blob_failed)
          env.expand_fails expand_failed (opened extracting env.original_fails blob_failed st tt d))

  classify_text-Below : (st : State) → Driven st → Leaves (Below 3) Driven (classify_text env st)
  unfolding classify_text
  classify_text-Below st d = elim (Bool-cases env.is_blank) [
    | inl h ↦ rw (classify_text, h) (settled_at 3 classified st (omega arith) tt d)
    | inr h ↦
        rw (classify_text, h)
          (settled 3 classified (fail_if env.classifier_fails llm_failed st) (omega arith) tt
            (checked (st, ok tt) env.classifier_fails llm_failed d))
  ]

  pub classify-Below : (st : State) → Driven st → Leaves (Below 3) Driven (classify env st)
  unfolding classify
  classify-Below st d =
      Leaves-▷ Driven (Below 3) Driven
        (update_status env classifying st ▷ fail_if env.text_fails blob_failed) (classify_text env)
        (opened classifying env.text_fails blob_failed st tt d) classify_text-Below

  committed_at-Driven :
      (st : State) (o : Repo × Result CommitError ℕ)
      → Driven st
      → Leaves Driven Driven (committed_at st o)
  committed_at-Driven st (repo, ok n) d = d
  committed_at-Driven st (repo, err e) d = d

  commit_valid-Below :
      (bundle : DiffBundle) (st : State)
      → Driven st
      → Leaves (Below 2) Driven (commit_valid env bundle st)
  unfolding commit_valid commit_all
  commit_valid-Below bundle st d =
      settled 2 committed
        (fail_if (not (is_empty (report_errors env bundle st)))
            (invalid (report_errors env bundle st)) st
          ▷ commit_all env bundle)
        (omega arith) tt
        (Leaves-▷ Driven Driven Driven
          (fail_if (not (is_empty (report_errors env bundle st)))
            (invalid (report_errors env bundle st)) st)
          (commit_all env bundle)
          (checked (st, ok tt) (not (is_empty (report_errors env bundle st)))
            (invalid (report_errors env bundle st)) d)
          (λ u e. committed_at-Driven u (commit_bundle env.faults bundle u.repo) e))

  land-Below :
      (st : State) (r : Result AgentError DiffBundle)
      → Driven st
      → Leaves (Below 2) Driven (land env st r)
  unfolding land
  land-Below st (err e) d = d
  land-Below st (ok bundle) d = elim (Bool-cases (is_empty bundle.operations)) [
    | inl e ↦
        rw (land, e) (Leaves-update_status (Below 2) Driven env committed st (omega arith, tt) d)
    | inr e ↦ rw (land, e) (commit_valid-Below bundle st d)
  ]

  pub distill-Below : (st : State) → Driven st → Leaves (Below 2) Driven (distill env st)
  unfolding distill run_agent
  distill-Below st d =
      Leaves-▷ Driven (Below 2) Driven (update_status env agent_distilling st) (run_agent env)
        (entered agent_distilling st tt d) (λ u e. land-Below u (env.agent u.repo) e)

  pub embed-Below : (st : State) → Driven st → Leaves (Below 1) Driven (embed env st)
  unfolding embed
  embed-Below st d = elim (Bool-cases env.has_embedder) [
    | inl h ↦
        rw (embed, h)
          (settled 1 done (update_status env embedding st ▷ fail_if env.embed_fails embed_failed)
            (omega arith) tt (opened embedding env.embed_fails embed_failed st tt d))
    | inr h ↦ rw (embed, h) (Leaves-update_status (Below 1) Driven env done st (omega arith, tt) d)
  ]
