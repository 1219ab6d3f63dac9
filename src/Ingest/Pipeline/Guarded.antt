-- ===== src/Ingest/Pipeline/Guarded.antt =====
-- What distilling may do to the wiki.
use qpedia.Prelude.{
  ◌≡◌, ◌≢◌, refl, sym, ap, subst, Bool, true, false, not, Bool-cases, ◌⊎◌, inl, inr, Result, ok,
  err, is_empty, List, [], ◌∷◌, ℕ,
}
use qpedia.Core.Wiki.{DiffBundle}
use qpedia.Core.Source.{SourceStatus, agent_distilling, committed}
use qpedia.Store.WikiRepo.{Repo, CommitError, commit_bundle}
use qpedia.Ingest.Agent.{AgentError}
use qpedia.Ingest.Validator.{ValidationError, validate}
use qpedia.Ingest.Pipeline.{
  PipelineEnv, State, Outcome, Failure, invalid, audit_failed, ◌▷◌, fail_if, update_status,
  write_audit, committed_at, commit_all, commit_valid, report_errors, land, run_agent, distill,
}
use qpedia.Ingest.Pipeline.Triple.{Leaves, Leaves-▷, Leaves-fail_if, Leaves-update_status}

module _ (env : PipelineEnv) (r : Repo) where
  -- The wiki is as it was, or it is what `commit_bundle` leaves for a bundle of the agent's that has
  -- operations and in which the validator finds no error.
  abbrev pub IsGuarded : State → Type 0
  IsGuarded st =
      (st.repo ≡ r)
      ⊎ ((bundle : DiffBundle) × (env.agent r ≡ ok bundle)
          × (bundle.operations ≢ [])
          × ((validate bundle (env.list_pages r)).errors ≡ [])
          × (st.repo ≡ (commit_bundle env.faults bundle r).0))

  Guarded : Outcome → Type 0
  Guarded = Leaves IsGuarded IsGuarded

  updated : (s : SourceStatus) (m : Outcome) → Guarded m → Guarded (m ▷ update_status env s)
  unfolding Guarded
  updated s m h =
      Leaves-▷ IsGuarded IsGuarded IsGuarded m (update_status env s) h
        (λ u g. Leaves-update_status IsGuarded IsGuarded env s u g g)

  empty_list : (errors : List ValidationError) → not (is_empty errors) ≡ false → errors ≡ []
  empty_list [] h = refl
  empty_list (x ∷ xs) h = cc

  not_empty : {A : Type 0} (xs : List A) → is_empty xs ≡ false → xs ≢ []
  not_empty [] h = cc
  not_empty (x ∷ xs) h = λ e. cc

  committed_at-IsGuarded :
      (bundle : DiffBundle) (st : State) (o : Repo × Result CommitError ℕ)
      → IsGuarded (record st { repo = o.0 })
      → Guarded (committed_at st o)
  unfolding Guarded
  committed_at-IsGuarded bundle st (repo, ok n) h = h
  committed_at-IsGuarded bundle st (repo, err e) h = h

  commit_valid-IsGuarded :
      (bundle : DiffBundle) (st : State)
      → st.repo ≡ r
      → env.agent r ≡ ok bundle
      → bundle.operations ≢ []
      → Guarded (commit_valid env bundle st)
  unfolding commit_valid commit_all Guarded report_errors
  commit_valid-IsGuarded bundle st same e some_ops =
      let check =
        fail_if (not (is_empty (report_errors env bundle st)))
          (invalid (report_errors env bundle st)) st in
      Leaves-▷ IsGuarded IsGuarded IsGuarded
        (check ▷ commit_all env bundle ▷ update_status env committed) (write_audit env committed)
        (updated committed (check ▷ commit_all env bundle) (
          Leaves-▷ IsChecked IsGuarded IsGuarded check (commit_all env bundle)
            (passed (not (is_empty (report_errors env bundle st)))
              (invalid (report_errors env bundle st)) st
              (λ k. (
                same,
                subst (λ repo. (validate bundle (env.list_pages repo)).errors ≡ []) same
                    (empty_list (report_errors env bundle st) k),
              ))
              (inl same))
            (λ u q. committed_at-IsGuarded bundle u (commit_bundle env.faults bundle u.repo) (
              inr (
                bundle,
                e,
                some_ops,
                q.1,
                ap (λ repo. (commit_bundle env.faults bundle repo).0) q.0,
              )))))
        (λ u g.
          Leaves-fail_if IsGuarded IsGuarded (env.audit_fails committed) (audit_failed committed) u
            g g)
    where
      IsChecked : State → Type 0
      IsChecked u = (u.repo ≡ r) × ((validate bundle (env.list_pages r)).errors ≡ [])

      passed :
          (b : Bool) (x : Failure) (u : State)
          → (b ≡ false → IsChecked u)
          → IsGuarded u
          → Leaves IsChecked IsGuarded (fail_if b x u)
      passed true x u h g = g
      passed false x u h g = h refl

  land-IsGuarded :
      (st : State) (o : Result AgentError DiffBundle)
      → st.repo ≡ r
      → env.agent r ≡ o
      → Guarded (land env st o)
  unfolding land Guarded
  land-IsGuarded st (err x) same e = inl same
  land-IsGuarded st (ok bundle) same e = elim (Bool-cases (is_empty bundle.operations)) [
    | inl h ↦
        rw (land, h)
          (Leaves-update_status IsGuarded IsGuarded env committed st (inl same) (inl same))
    | inr h ↦ rw (land, h) (commit_valid-IsGuarded bundle st same e (not_empty bundle.operations h))
  ]

  -- Distilling changes the wiki only by committing a bundle that the agent returned for this wiki, that has
  -- operations, and in which the validator finds no error; else the wiki stays as it was. This holds
  -- whether the phase succeeds or fails.
  pub distill-IsGuarded : (st : State) → st.repo ≡ r → Leaves IsGuarded IsGuarded (distill env st)
  unfolding distill run_agent Guarded
  distill-IsGuarded st same =
      Leaves-▷ (λ u. u.repo ≡ r) IsGuarded IsGuarded (update_status env agent_distilling st)
        (run_agent env)
        (Leaves-update_status (λ u. u.repo ≡ r) IsGuarded env agent_distilling st same (inl same))
        (λ u k. land-IsGuarded u (env.agent u.repo) k (ap env.agent (sym k)))
