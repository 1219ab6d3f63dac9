-- ===== src/Ingest/Pipeline/Ends.antt =====
-- An ingest job ends, and where it leaves the source.
use qpedia.Prelude.{
  ℕ, zero, suc, ◌<◌, ◌==◌, ltb, ◌||◌, sym, ◌∙◌, subst, ==_iff, ◌≡◌, refl, ap, Bool, true, false,
  Bool-cases, inl, inr, ok, err, arith, if◌then◌else◌,
}
use qpedia.Core.Source.{
  SourceStatus, pending, extracting, extracted, classifying, classified, agent_distilling,
  agent_distilled, validating, validated, committing, committed, embedding, done, tainted, failed,
  dead,
}
use qpedia.Store.WikiRepo.{Repo}
use qpedia.Ingest.Pipeline.{
  PipelineEnv, State, Outcome, update_status, write_audit, is_archive_mime, extract_phase, expand,
  classify, distill, embed, taint, Step, continue, stop, step_once, Ran, finished, out_of_fuel,
  stopped_by, discriminant, round_end, run, audit_failed,
}
use qpedia.Ingest.Pipeline.Triple.{Leaves, Leaves-▷, Leaves-fail_if, Leaves-update_status}
use qpedia.Ingest.Pipeline.Progress.{
  left, IsDriven, IsEnd, Driven, Below, expand-Below, extract_phase-Below, classify-Below,
  distill-Below, embed-Below,
}

module _ (env : PipelineEnv) where
  -- What one step leaves of a source that had this status.
  abbrev StepLeaves : SourceStatus → Outcome × Step → Type 0
  StepLeaves s ((st, err e), _) = Driven st
  StepLeaves s ((st, ok _), continue) = Below (left s) st
  StepLeaves s ((st, ok _), stop) = IsEnd st.status

  continued :
      (s : SourceStatus) (m : Outcome)
      → Leaves (Below (left s)) Driven m
      → StepLeaves s (m, continue)
  continued s (st, ok _) h = h
  continued s (st, err e) h = h

  taint-StepLeaves : (s : SourceStatus) (st : State) → Driven st → StepLeaves s (taint env st, stop)
  unfolding taint
  taint-StepLeaves s st d = go (taint env st) (
      Leaves-▷ IsEndState IsEndState Driven (update_status env tainted st) (write_audit env tainted)
        (Leaves-update_status IsEndState Driven env tainted st (tt, tt) d)
        (λ u b.
          Leaves-fail_if IsEndState Driven (env.audit_fails tainted) (audit_failed tainted) u b
            b.1))
    where
      IsEndState : State → Type 0
      IsEndState st = IsEnd st.status × IsDriven st.status

      go : (m : Outcome) → Leaves IsEndState Driven m → StepLeaves s (m, stop)
      go (st, ok _) h = h.0
      go (st, err e) h = h

  begin-Below :
      (st : State)
      → Driven st
      → Leaves
          (Below 4)
          Driven
          (if is_archive_mime env.mime then expand env st else extract_phase env st)
  begin-Below st d = elim (Bool-cases (is_archive_mime env.mime)) [
    | inl h ↦ rw h (expand-Below env st d)
    | inr h ↦ rw h (extract_phase-Below env st d)
  ]

  modelled_if :
      (b : Bool) (s : SourceStatus) (st : State) (phase : Outcome)
      → Driven st
      → Leaves (Below (left s)) Driven phase
      → StepLeaves s (if b then (phase, continue) else (taint env st, stop))
  modelled_if true s st phase d h = continued s phase h
  modelled_if false s st phase d h = taint-StepLeaves s st d

  abbrev at : SourceStatus → Repo → State
  at s repo = record { status = s; repo = repo }

  step_once-StepLeaves :
      (s : SourceStatus) (repo : Repo) → IsDriven s → StepLeaves s (step_once env (at s repo))
  unfolding step_once
  step_once-StepLeaves pending repo d =
      continued pending
        (if is_archive_mime env.mime
          then expand env (at pending repo)
          else extract_phase env (at pending repo))
        (begin-Below (at pending repo) d)
  step_once-StepLeaves extracting repo d =
      continued extracting
        (if is_archive_mime env.mime
          then expand env (at extracting repo)
          else extract_phase env (at extracting repo))
        (begin-Below (at extracting repo) d)
  step_once-StepLeaves failed repo d =
      continued failed
        (if is_archive_mime env.mime
          then expand env (at failed repo)
          else extract_phase env (at failed repo))
        (begin-Below (at failed repo) d)
  step_once-StepLeaves extracted repo d =
      modelled_if env.has_llm extracted (at extracted repo) (classify env (at extracted repo)) d
        (classify-Below env (at extracted repo) d)
  step_once-StepLeaves classifying repo d =
      modelled_if env.has_llm classifying (at classifying repo) (classify env (at classifying repo))
        d (classify-Below env (at classifying repo) d)
  step_once-StepLeaves classified repo d =
      modelled_if env.has_llm classified (at classified repo) (distill env (at classified repo)) d
        (distill-Below env (at classified repo) d)
  step_once-StepLeaves agent_distilling repo d =
      modelled_if env.has_llm agent_distilling (at agent_distilling repo)
        (distill env (at agent_distilling repo)) d (distill-Below env (at agent_distilling repo) d)
  step_once-StepLeaves committed repo d =
      continued committed (embed env (at committed repo)) (embed-Below env (at committed repo) d)
  step_once-StepLeaves embedding repo d =
      continued embedding (embed env (at embedding repo)) (embed-Below env (at embedding repo) d)
  step_once-StepLeaves done repo d = tt
  step_once-StepLeaves tainted repo d = tt
  step_once-StepLeaves agent_distilled repo d = absurd d
  step_once-StepLeaves validating repo d = absurd d
  step_once-StepLeaves validated repo d = absurd d
  step_once-StepLeaves committing repo d = absurd d
  step_once-StepLeaves dead repo d = absurd d

  -- The phases that are left are read off the discriminant.
  left_of : ℕ → ℕ
  left_of n =
      if ltb n 2
      then 4
      else if ltb n 4
      then 3
      else if ltb n 6
      then 2
      else if n == 10 || n == 11
      then 1
      else if n == 14
      then 4
      else 0

  left_of-discriminant : (s : SourceStatus) → left_of (discriminant s) ≡ left s
  unfolding left_of
  left_of-discriminant pending = refl
  left_of-discriminant extracting = refl
  left_of-discriminant extracted = refl
  left_of-discriminant classifying = refl
  left_of-discriminant classified = refl
  left_of-discriminant agent_distilling = refl
  left_of-discriminant agent_distilled = refl
  left_of-discriminant validating = refl
  left_of-discriminant validated = refl
  left_of-discriminant committing = refl
  left_of-discriminant committed = refl
  left_of-discriminant embedding = refl
  left_of-discriminant done = refl
  left_of-discriminant tainted = refl
  left_of-discriminant failed = refl
  left_of-discriminant dead = refl

  moved : (s t : SourceStatus) → left t < left s → (discriminant t == discriminant s) ≡ false
  moved s t h = elim (Bool-cases (discriminant t == discriminant s)) [
    | inr e ↦ e
    | inl e ↦ absurd (
        lt_irrefl (left s) (
          subst (λ n. n < left s)
            (sym (left_of-discriminant t)
              ∙ ap left_of ((==_iff (discriminant t) (discriminant s)).0 e)
              ∙ left_of-discriminant s)
            h))
  ]
    where
      lt_irrefl : (n : ℕ) → n < n → ⊥
      lt_irrefl n h = omega arith

-- Where a job may leave its source.
abbrev pub IsJobEnd : State × Ran → Type 0
IsJobEnd (st, finished) = IsEnd st.status
IsJobEnd (st, stopped_by e) = IsDriven st.status
IsJobEnd (st, out_of_fuel) = ⊥

module _ (env : PipelineEnv) where
  round_end-IsJobEnd :
      (s : SourceStatus) (o : Outcome × Step) (more : State → State × Ran)
      → StepLeaves env s o
      → ((st : State) → left st.status < left s → IsDriven st.status → IsJobEnd (more st))
      → IsJobEnd (round_end s o more)
  round_end-IsJobEnd s ((st, err e), _) more h k = h
  round_end-IsJobEnd s ((st, ok _), stop) more h k = h
  round_end-IsJobEnd s ((st, ok _), continue) more (less, d) k =
      rw (moved env s st.status less) (k st less d)

  -- A job for a source whose status is not one of the five that nothing writes comes to an end: it needs
  -- one round more than phases are left, which is 5 at most. If it returns without an error the source is
  -- done or tainted. If it fails, the source has a status from which the next try goes on, or is at its end.
  pub run-IsJobEnd :
      (fuel : ℕ) (st : State)
      → IsDriven st.status
      → left st.status < fuel
      → IsJobEnd (run env fuel st)
  unfolding run
  run-IsJobEnd zero st d h = absurd (not_lt_zero (left st.status) h)
    where
      not_lt_zero : (n : ℕ) → n < 0 → ⊥
      not_lt_zero n h = omega arith
  run-IsJobEnd (suc fuel) st d h =
      round_end-IsJobEnd st.status (step_once env st) (run env fuel)
        (step_once-StepLeaves env st.status st.repo d)
        (λ st' less d'. run-IsJobEnd fuel st' d' (omega arith))
