-- ===== src/Ingest/Remove/Removed.antt =====
-- What a remove job leaves when it succeeds.
use qpedia.Prelude.{
  ℕ, ◌≡◌, refl, sym, ap, ◌∙◌, ◌⊎◌, inl, inr, true, List, [], ◌∷◌, if◌then◌else◌, is_empty, Result,
  ok, err, Bool-cases,
}
use qpedia.Text.{Text, contains_text}
use qpedia.Core.Wiki.{DiffOp}
use qpedia.Store.WikiRepo.{FilePath, Repo, CommitError, read_file, commit_bundle}
use qpedia.Store.WikiRepo.Replay.{effects}
use qpedia.Store.WikiRepo.Commit.{IsOutcome, commit_bundle_lem}
use qpedia.Ingest.Remove.{
  without, Plan, planned, RemoveEnv, RemoveState, drop_blobs, cleanup, page_rows, after_commit,
  bundle_of, after_plan, run,
}
use qpedia.Ingest.Remove.Settled.{
  IsWikiPage, fate_of, IsPlanned, planned-IsPlanned, effects-planned,
}

module _ (env : RemoveEnv) (source_id : Text) where
  -- What is left: each page as it is to become, all of it committed if anything was written, and
  -- neither the row of the source nor its blobs, unless they could not be removed.
  pub record IsRemoved (st st' : RemoveState) : Type 0 where
    pub pages :
        (p : FilePath)
        → IsWikiPage p
        → read_file p st'.repo.tree ≡ fate_of source_id (read_file p st.repo.tree)
    pub committed : (st'.repo ≡ st.repo) ⊎ (st'.repo.head ≡ st'.repo.tree)
    pub row : st'.sources ≡ without source_id st.sources
    pub dropped : st'.blobs ≡ (if env.blob_fails then st.blobs else without source_id st.blobs)

  -- What the last steps leave.
  cleanup-ok :
      (st st' : RemoveState)
      → cleanup env source_id st ≡ (st', ok tt)
      → (st'.repo ≡ st.repo)
        × (st'.sources ≡ without source_id st.sources)
        × (st'.blobs ≡ (if env.blob_fails then st.blobs else without source_id st.blobs))
  unfolding cleanup drop_blobs
  cleanup-ok st st' h = elim (Bool-cases env.row_fails) [
    | inl e ↦ cc (ap (λ o. o.1) (rw (cleanup, e) at h))
    | inr e ↦ elim (Bool-cases env.blob_fails) [
      | inl k ↦
          let left = sym (ap (λ o. o.0) (rw (cleanup, drop_blobs, e, k) at h)) in
          (ap (λ x. x.repo) left, ap (λ x. x.sources) left, rw k (ap (λ x. x.blobs) left))
      | inr k ↦
          let left = sym (ap (λ o. o.0) (rw (cleanup, drop_blobs, e, k) at h)) in
          (ap (λ x. x.repo) left, ap (λ x. x.sources) left, rw k (ap (λ x. x.blobs) left))
    ]
  ]

  module _ (st st' : RemoveState) (pl : Plan) (ops : List DiffOp)
      (parts : IsPlanned source_id env.timestamp st.repo pl ops) where
    after_commit-IsRemoved :
        (o : Repo × Result CommitError ℕ)
        → IsOutcome (bundle_of source_id pl ops) st.repo o
        → after_commit env source_id pl st o ≡ (st', ok tt)
        → IsRemoved st st'
    unfolding after_commit bundle_of
    after_commit-IsRemoved (repo, err e) outcome h = cc (ap (λ o. o.1) h)
    after_commit-IsRemoved (repo, ok n) outcome h =
        let (same, row, blobs) =
          cleanup-ok (record st { repo = repo; wiki_pages = page_rows env pl repo st.wiki_pages })
            st' h in
        record {
          pages = λ p page.
              ap (λ x. read_file p x.tree) same
              ∙ outcome.files p
              ∙ effects-planned source_id env.timestamp st.repo p pl ops page parts;
          committed = inr (ap (λ x. x.head) same ∙ outcome.committed ∙ ap (λ x. x.tree) (sym same));
          row = row;
          dropped = blobs;
        }

    nothing-IsRemoved : ops ≡ [] → cleanup env source_id st ≡ (st', ok tt) → IsRemoved st st'
    nothing-IsRemoved empty h =
        let (same, row, blobs) = cleanup-ok st st' h in
        record {
          pages = λ p page.
              ap (λ x. read_file p x.tree) same
              ∙ ap (λ x. effects x p (read_file p st.repo.tree)) (sym empty)
              ∙ effects-planned source_id env.timestamp st.repo p pl ops page parts;
          committed = inl same;
          row = row;
          dropped = blobs;
        }

  empty-eq-nil : (ops : List DiffOp) → is_empty ops ≡ true → ops ≡ []
  empty-eq-nil [] h = refl
  empty-eq-nil (op ∷ ops) h = cc

  after_plan-IsRemoved :
      (st st' : RemoveState) (o : Result CommitError (Plan × List DiffOp))
      → planned source_id env.timestamp st.repo ≡ o
      → after_plan env source_id st o ≡ (st', ok tt)
      → IsRemoved st st'
  unfolding after_plan
  after_plan-IsRemoved st st' (err e) k h = cc (ap (λ o. o.1) h)
  after_plan-IsRemoved st st' (ok (pl, ops)) k h =
      let parts = planned-IsPlanned source_id env.timestamp st.repo pl ops k in
      elim (Bool-cases (is_empty ops)) [
        | inl e ↦
            nothing-IsRemoved st st' pl ops parts (empty-eq-nil ops e) (rw (after_plan, e) at h)
        | inr e ↦
            after_commit-IsRemoved st st' pl ops parts
              (commit_bundle env.faults (bundle_of source_id pl ops) st.repo)
              (commit_bundle_lem env.faults (bundle_of source_id pl ops) st.repo)
              (rw (after_plan, e) at h)
      ]

  -- A remove job that succeeds for a source that has a row leaves the wiki as it should be. A page that
  -- does not list the source is as before, one that lists no other source is gone, and any other has its
  -- list rewritten to the other sources; this holds of every file that the walk meets, but for the system
  -- pages, and all of it is committed. The row of the source is gone, and no other row. Its blobs are
  -- gone, unless the blob store refused.
  pub run-IsRemoved :
      (st st' : RemoveState)
      → contains_text st.sources source_id ≡ true
      → run env source_id st ≡ (st', ok tt)
      → IsRemoved st st'
  unfolding run
  run-IsRemoved st st' row h = elim (Bool-cases env.source_fails) [
    | inl e ↦ cc (ap (λ o. o.1) (rw (run, e) at h))
    | inr e ↦ elim (Bool-cases env.wiki_fails) [
      | inl k ↦ cc (ap (λ o. o.1) (rw (run, e, row, k) at h))
      | inr k ↦
          after_plan-IsRemoved st st' (planned source_id env.timestamp st.repo) refl
            (rw (run, e, row, k) at h)
    ]
  ]
