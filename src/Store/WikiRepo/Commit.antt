-- ===== src/Store/WikiRepo/Commit.antt =====
-- What `commit_bundle` does to the repository, when it returns and when it fails.
use qpedia.Prelude.{
  ℕ, suc, ◌≤◌, ◌≡◌, refl, inl, inr, ◌∷◌, arith, ltb, length, All, Result, ok, err, Bool-cases,
}
use qpedia.Core.Wiki.{DiffBundle}
use qpedia.Store.WikiRepo.{
  FilePath, FileTree, read_file, Faults, Repo, CommitError, page_too_large, bundle_too_large,
  bad_path, write_failed, git_failed, no_changes, rev_parse, add_all, status, commit,
  max_bundle_bytes, check_ops, apply_ops, commit_tree, after_apply, after_check, commit_bundle,
  message, is_clean,
}
use qpedia.Store.WikiRepo.Checks.{ops_bytes, IsFit, IsCheckError, check_ops-ok, check_ops-Rejects}
use qpedia.Store.WikiRepo.Replay.{effects, IsWriteError, IsReplay, apply_ops-IsReplay}

-- What a failed commit leaves. A rejected bundle changes nothing; a failure of the file system or of
-- git may leave files written, but no commit, unless only the new commit's name could not be read.
abbrev pub IsFailure : Repo → Repo → CommitError → Type 0
IsFailure r r' (page_too_large path bytes) = r' ≡ r
IsFailure r r' (bundle_too_large bytes) = r' ≡ r
IsFailure r r' (bad_path e) = r' ≡ r
IsFailure r r' (git_failed rev_parse) = r'.head ≡ r'.tree
IsFailure r r' _ = (r'.head ≡ r.head) × (r'.log ≡ r.log)

-- What a commit leaves: all files as the operations write them one after the other, all of them
-- committed, under one new message. The operations were within the limits.
pub record IsCommitted (bundle : DiffBundle) (r r' : Repo) (commits : ℕ) : Type 0 where
  pub files :
      (p : FilePath) → read_file p r'.tree ≡ effects bundle.operations p (read_file p r.tree)
  pub committed : r'.head ≡ r'.tree
  pub logged : r'.log ≡ message bundle ∷ r.log
  pub counted : commits ≡ suc (length r.log)
  pub fits : All IsFit bundle.operations
  pub small : ops_bytes bundle.operations ≤ max_bundle_bytes

abbrev pub IsOutcome : DiffBundle → Repo → Repo × Result CommitError ℕ → Type 0
IsOutcome bundle r (r', ok n) = IsCommitted bundle r r' n
IsOutcome bundle r (r', err e) = IsFailure r r' e

write-IsFailure :
    (r : Repo) (files : FileTree) (e : CommitError)
    → IsWriteError e
    → IsFailure r (record r { tree = files }) e
write-IsFailure r files (write_failed path) h = (refl, refl)
write-IsFailure r files (page_too_large path bytes) h = absurd h
write-IsFailure r files (bundle_too_large bytes) h = absurd h
write-IsFailure r files (bad_path e) h = absurd h
write-IsFailure r files (git_failed c) h = absurd h
write-IsFailure r files no_changes h = absurd h

check-IsFailure : (r : Repo) (e : CommitError) → IsCheckError e → IsFailure r r e
check-IsFailure r (page_too_large path bytes) h = refl
check-IsFailure r (bad_path e) h = refl
check-IsFailure r (bundle_too_large bytes) h = absurd h
check-IsFailure r (write_failed path) h = absurd h
check-IsFailure r (git_failed c) h = absurd h
check-IsFailure r no_changes h = absurd h

module _ (faults : Faults) (bundle : DiffBundle) (r : Repo) where
  commit_tree-IsOutcome :
      (files : FileTree)
      → All IsFit bundle.operations
      → ops_bytes bundle.operations ≤ max_bundle_bytes
      → ((p : FilePath) → read_file p files ≡ effects bundle.operations p (read_file p r.tree))
      → IsOutcome bundle r (commit_tree faults bundle (record r { tree = files }))
  unfolding commit_tree
  commit_tree-IsOutcome files fits small replay = elim (Bool-cases (faults.git_fails add_all)) [
    | inl a ↦ rw a (refl, refl)
    | inr a ↦ elim (Bool-cases (faults.git_fails status)) [
      | inl b ↦ rw (a, b) (refl, refl)
      | inr b ↦ elim (Bool-cases (is_clean files r.head)) [
        | inl c ↦ rw (a, b, c) (refl, refl)
        | inr c ↦ elim (Bool-cases (faults.git_fails commit)) [
          | inl d ↦ rw (a, b, c, d) (refl, refl)
          | inr d ↦ elim (Bool-cases (faults.git_fails rev_parse)) [
            | inl e ↦ rw (a, b, c, d, e) refl
            | inr e ↦
                rw (a, b, c, d, e)
                  (record {
                    files = replay;
                    committed = refl;
                    logged = refl;
                    counted = refl;
                    fits = fits;
                    small = small;
                  })
          ]
        ]
      ]
    ]
  ]

  after_apply-IsOutcome :
      (o : FileTree × Result CommitError (Unit {0}))
      → All IsFit bundle.operations
      → ops_bytes bundle.operations ≤ max_bundle_bytes
      → IsReplay bundle.operations r.tree o
      → IsOutcome bundle r (after_apply faults bundle r o)
  unfolding after_apply
  after_apply-IsOutcome (files, err e) fits small h = write-IsFailure r files e h
  after_apply-IsOutcome (files, ok _) fits small h = commit_tree-IsOutcome files fits small h

  after_check-IsOutcome :
      (c : Result CommitError ℕ)
      → check_ops bundle.operations 0 ≡ c
      → IsOutcome bundle r (after_check faults bundle r c)
  unfolding after_check
  after_check-IsOutcome (err e) h =
      check-IsFailure r e (rw h at (check_ops-Rejects bundle.operations 0))
  after_check-IsOutcome (ok total) h =
      let (fits, sum) = check_ops-ok bundle.operations 0 total h in
      elim (Bool-cases (ltb max_bundle_bytes total)) [
        | inl e ↦ rw e refl
        | inr e ↦ rw e (
            after_apply-IsOutcome (apply_ops faults bundle.operations r.tree) fits (ground arith)
              (apply_ops-IsReplay faults bundle.operations r.tree fits))
      ]

  -- A bundle is committed as a whole: on success every file holds what the operations, applied in
  -- their order, make of it, all files are committed under one new message, each path lies inside the
  -- repository, no page that was written is larger than 50 KB and all together are at most 500 KB. A
  -- bundle with a bad path, or over a limit, changes nothing at all. Any other failure leaves the last
  -- commit and the log as they were, unless git failed to name the commit that it had just made.
  pub commit_bundle_lem : IsOutcome bundle r (commit_bundle faults bundle r)
  unfolding commit_bundle
  commit_bundle_lem = after_check-IsOutcome (check_ops bundle.operations 0) refl
