-- ===== src/Ingest/Remove/Errors.antt =====
-- A remove job that fails: what it leaves, and a log that makes every job fail.
use qpedia.Prelude.{
  ℕ, ◌≡◌, refl, sym, ap, subst, ◌∙◌, inl, inr, List, is_empty, Result, ok, err, Bool-cases,
}
use qpedia.Text.{Text, contains_text}
use qpedia.Core.Wiki.{DiffOp}
use qpedia.Store.WikiRepo.{Repo, CommitError, commit_bundle}
use qpedia.Store.WikiRepo.Commit.{IsFailure, IsOutcome, commit_bundle_lem}
use qpedia.Ingest.Remove.{
  Plan, planned, RemoveEnv, RemoveState, RemoveError, RemoveOutcome, source_failed, wiki_failed,
  row_failed, read_failed, commit_failed, drop_blobs, cleanup, page_rows, after_commit, bundle_of,
  after_plan, run,
}

module _ (env : RemoveEnv) (source_id : Text) where
  -- What a failed job leaves, by its error.
  abbrev pub IsKept : RemoveState → RemoveState → RemoveError → Type 0
  IsKept st st' (commit_failed e) =
      IsFailure st.repo st'.repo e
      × (st'.sources ≡ st.sources)
      × (st'.blobs ≡ st.blobs)
      × (st'.wiki_pages ≡ st.wiki_pages)
  IsKept st st' row_failed = st'.sources ≡ st.sources
  IsKept st st' _ = st' ≡ st

  err-injective :
      {e e' : RemoveError} → ◌≡◌ {A = Result RemoveError (Unit {0})} (err e) (err e') → e ≡ e'
  err-injective h = cc

  same_outcome :
      (st st1 st' : RemoveState) (e1 e : RemoveError)
      → ◌≡◌ {A = RemoveOutcome} (st1, err e1) (st', err e)
      → IsKept st st1 e1
      → IsKept st st' e
  same_outcome st st1 st' e1 e h k =
      subst (λ x. IsKept st x e) (ap (λ o. o.0) h)
        (subst (λ x. IsKept st st1 x) (err-injective (ap (λ o. o.1) h)) k)

  cleanup-err :
      (st st' : RemoveState) (e : RemoveError)
      → cleanup env source_id st ≡ (st', err e)
      → (e ≡ row_failed) × (st'.sources ≡ st.sources)
  unfolding cleanup drop_blobs
  cleanup-err st st' e h = elim (Bool-cases env.row_fails) [
    | inr k ↦ cc (ap (λ o. o.1) (rw (cleanup, k) at h))
    | inl k ↦ elim (Bool-cases env.blob_fails) [
      | inl b ↦
          let h' = rw (cleanup, drop_blobs, k, b) at h in
          (sym (err-injective (ap (λ o. o.1) h')), ap (λ o. o.0.sources) (sym h'))
      | inr b ↦
          let h' = rw (cleanup, drop_blobs, k, b) at h in
          (sym (err-injective (ap (λ o. o.1) h')), ap (λ o. o.0.sources) (sym h'))
    ]
  ]

  row_failed-IsKept :
      (st st1 st' : RemoveState) (e : RemoveError)
      → st1.sources ≡ st.sources
      → cleanup env source_id st1 ≡ (st', err e)
      → IsKept st st' e
  row_failed-IsKept st st1 st' e same h =
      let (k, kept) = cleanup-err st1 st' e h in subst (λ x. IsKept st st' x) (sym k) (kept ∙ same)

  after_commit-IsKept :
      (st st' : RemoveState) (pl : Plan) (ops : List DiffOp) (e : RemoveError)
      (o : Repo × Result CommitError ℕ)
      → IsOutcome (bundle_of source_id pl ops) st.repo o
      → after_commit env source_id pl st o ≡ (st', err e)
      → IsKept st st' e
  unfolding after_commit
  after_commit-IsKept st st' pl ops e (repo, err c) outcome h =
      same_outcome st (record st { repo = repo }) st' (commit_failed c) e h
        (outcome, refl, refl, refl)
  after_commit-IsKept st st' pl ops e (repo, ok n) outcome h =
      row_failed-IsKept st
        (record st { repo = repo; wiki_pages = page_rows env pl repo st.wiki_pages }) st' e refl h

  after_plan-IsKept :
      (st st' : RemoveState) (e : RemoveError) (o : Result CommitError (Plan × List DiffOp))
      → after_plan env source_id st o ≡ (st', err e)
      → IsKept st st' e
  unfolding after_plan
  after_plan-IsKept st st' e (err c) h = same_outcome st st st' (read_failed c) e h refl
  after_plan-IsKept st st' e (ok (pl, ops)) h = elim (Bool-cases (is_empty ops)) [
    | inl k ↦ row_failed-IsKept st st st' e refl (rw (after_plan, k) at h)
    | inr k ↦
        after_commit-IsKept st st' pl ops e
          (commit_bundle env.faults (bundle_of source_id pl ops) st.repo)
          (commit_bundle_lem env.faults (bundle_of source_id pl ops) st.repo)
          (rw (after_plan, k) at h)
  ]

  -- A remove job that fails keeps the row of its source, so that it can be tried again. If it cannot look
  -- up the source, open the wiki or read a page, nothing changes at all. If the commit fails, nothing
  -- but the wiki may have changed, and the wiki only as a failed commit may change it.
  pub run-IsKept :
      (st st' : RemoveState) (e : RemoveError)
      → run env source_id st ≡ (st', err e)
      → IsKept st st' e
  unfolding run
  run-IsKept st st' e h = elim (Bool-cases env.source_fails) [
    | inl a ↦ same_outcome st st st' source_failed e (rw (run, a) at h) refl
    | inr a ↦ elim (Bool-cases (contains_text st.sources source_id)) [
      | inr b ↦ cc (ap (λ o. o.1) (rw (run, a, b) at h))
      | inl b ↦ elim (Bool-cases env.wiki_fails) [
        | inl c ↦ same_outcome st st st' wiki_failed e (rw (run, a, b, c) at h) refl
        | inr c ↦
            after_plan-IsKept st st' e (planned source_id env.timestamp st.repo)
              (rw (run, a, b, c) at h)
      ]
    ]
  ]
