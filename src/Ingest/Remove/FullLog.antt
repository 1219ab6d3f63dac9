-- ===== src/Ingest/Remove/FullLog.antt =====
-- A log at its limit: no remove job succeeds any more.
use qpedia.Prelude.{
  ℕ, ◌+◌, ◌≤◌, ◌<◌, ◌≡◌, ◌≢◌, refl, sym, ap, subst, ◌∙◌, inl, inr, true, some, List, [], ◌∷◌, ◌++◌,
  arith, is_empty, length, All, Result, ok, err, >>=-eq-ok, ok-injective, Bool-cases, ◌&&◌,
}
use qpedia.Text.{Text, codes, contains_text, byte_len, trim_end, decimal}
use qpedia.Text.Laws.{byte_len-append}
use qpedia.Core.Wiki.{DiffOp}
use qpedia.Store.WikiRepo.{Repo, CommitError, read_page, commit_bundle, max_page_bytes}
use qpedia.Store.WikiRepo.Checks.{IsFit}
use qpedia.Store.WikiRepo.Commit.{IsOutcome, commit_bundle_lem}
use qpedia.Ingest.Remove.{
  Plan, page_ops, log_line, log_patch, log_page_ops, log_ops, planned, RemoveEnv, RemoveState,
  after_commit, bundle_of, after_plan, run,
}
use qpedia.Ingest.Remove.Settled.{IsPlanned, planned-IsPlanned}

longer_start : (s t : Text) (n : ℕ) → n ≤ byte_len t → n ≤ byte_len (s ++ t)
longer_start s t n h = omega (arith, byte_len-append s t)

longer_end : (s t : Text) (n : ℕ) → n ≤ byte_len s → n ≤ byte_len (s ++ t)
longer_end s t n h = omega (arith, byte_len-append s t)

both : (s t : Text) (m n : ℕ) → m ≤ byte_len s → n ≤ byte_len t → m + n ≤ byte_len (s ++ t)
both s t m n h k = omega (arith, byte_len-append s t)

start_long :
    (source_id timestamp : Text)
    → 11 ≤ byte_len (codes "\n- " ++ (timestamp ++ (codes " remove(" ++ source_id)))
start_long source_id timestamp =
    both (codes "\n- ") (timestamp ++ (codes " remove(" ++ source_id)) 3 8
      (unfold byte_len in omega arith)
      (longer_start timestamp (codes " remove(" ++ source_id) 8
        (longer_end (codes " remove(") source_id 8 (unfold byte_len in omega arith)))

end_long :
    (deleted patched : Text)
    → 26
      ≤ byte_len (
          codes "): deleted "
          ++ (deleted ++ (codes " page(s), patched " ++ (patched ++ codes " page(s)\n"))))
end_long deleted patched =
    both (codes "): deleted ")
      (deleted ++ (codes " page(s), patched " ++ (patched ++ codes " page(s)\n"))) 11 15
      (unfold byte_len in omega arith)
      (longer_start deleted (codes " page(s), patched " ++ (patched ++ codes " page(s)\n")) 15 (
        longer_end (codes " page(s), patched ") (patched ++ codes " page(s)\n") 15
          (unfold byte_len in omega arith)))

-- An entry of the log takes 37 bytes at least.
log_line_long :
    (source_id timestamp : Text) (pl : Plan) → 37 ≤ byte_len (log_line source_id timestamp pl)
unfolding log_line
log_line_long source_id timestamp pl =
    let start = codes "\n- " ++ (timestamp ++ (codes " remove(" ++ source_id)) in
    elim (Bool-cases (is_empty pl.to_delete && is_empty pl.to_patch)) [
      | inl e ↦ rw e (
          both start (codes "): no wiki pages affected\n") 11 26 (start_long source_id timestamp)
            (unfold byte_len in omega arith))
      | inr e ↦ rw e (
          both start _ 11 26 (start_long source_id timestamp)
            (end_long (decimal (length pl.to_delete)) (decimal (length pl.to_patch))))
    ]

All-last :
    (P : DiffOp → Type 0) (xs ys : List DiffOp) (x : DiffOp) → All P (xs ++ (ys ++ x ∷ [])) → P x
All-last P [] [] x (h, _) = h
All-last P [] (y ∷ ys) x (_, h) = All-last P [] ys x h
All-last P (z ∷ xs) ys x (_, h) = All-last P xs ys x h

All-empty : (P : DiffOp → Type 0) (ops : List DiffOp) → is_empty ops ≡ true → All P ops
All-empty P [] h = tt
All-empty P (op ∷ ops) h = cc

module _ (env : RemoveEnv) (source_id : Text) where
  log_patch-too_long :
      (pl : Plan) (log : Text)
      → max_page_bytes < byte_len (trim_end log) + 37
      → IsFit (log_patch source_id env.timestamp pl log)
      → ⊥
  unfolding log_patch
  log_patch-too_long pl log h (safe, fits) =
      let long = log_line_long source_id env.timestamp pl in
      let sum = byte_len-append (trim_end log) (log_line source_id env.timestamp pl) in omega arith

  module _ (st st' : RemoveState) (log : Text)
      (there_is : read_page st.repo (codes "log.md") ≡ ok (some log))
      (full : max_page_bytes < byte_len (trim_end log) + 37) where
    log_part :
        (pl : Plan) (ops : List DiffOp)
        → log_ops source_id env.timestamp pl st.repo ≡ ok ops
        → ops ≡ log_patch source_id env.timestamp pl log ∷ []
    unfolding log_ops
    log_part pl ops h =
        let (o, e, k) =
          >>=-eq-ok (read_page st.repo (codes "log.md"))
            (λ o. ok (log_page_ops source_id env.timestamp pl o)) h in
        sym (ok-injective k)
        ∙ ap (log_page_ops source_id env.timestamp pl) (ok-injective (sym e ∙ there_is))

    full-planned :
        (pl : Plan) (ops : List DiffOp)
        → IsPlanned source_id env.timestamp st.repo pl ops
        → All IsFit ops
        → ⊥
    full-planned pl ops parts fits =
        let e =
          parts.all_ops
          ∙ ap (λ x. page_ops source_id pl ++ (parts.index ++ x))
              (log_part pl parts.log parts.logged) in
        log_patch-too_long pl log full
          (All-last IsFit (page_ops source_id pl) parts.index _ (subst (λ x. All IsFit x) e fits))

    full-after_commit :
        (pl : Plan) (ops : List DiffOp) (o : Repo × Result CommitError ℕ)
        → IsPlanned source_id env.timestamp st.repo pl ops
        → IsOutcome (bundle_of source_id pl ops) st.repo o
        → after_commit env source_id pl st o ≢ (st', ok tt)
    unfolding after_commit bundle_of
    full-after_commit pl ops (repo, err e) parts outcome h = cc (ap (λ x. x.1) h)
    full-after_commit pl ops (repo, ok n) parts outcome h = full-planned pl ops parts outcome.fits

    full-after_plan :
        (o : Result CommitError (Plan × List DiffOp))
        → planned source_id env.timestamp st.repo ≡ o
        → after_plan env source_id st o ≢ (st', ok tt)
    unfolding after_plan
    full-after_plan (err e) k h = cc (ap (λ x. x.1) h)
    full-after_plan (ok (pl, ops)) k h =
        let parts = planned-IsPlanned source_id env.timestamp st.repo pl ops k in
        elim (Bool-cases (is_empty ops)) [
          | inl e ↦ full-planned pl ops parts (All-empty IsFit ops e)
          | inr e ↦
              full-after_commit pl ops
                (commit_bundle env.faults (bundle_of source_id pl ops) st.repo) parts
                (commit_bundle_lem env.faults (bundle_of source_id pl ops) st.repo)
                (rw (after_plan, e) at h)
        ]

    -- Once the log is within 37 bytes of the limit on a page, no remove job of a source with a row
    -- succeeds, whatever the services do: the entry that the job appends makes the commit fail.
    pub run-full_log :
        contains_text st.sources source_id ≡ true → run env source_id st ≢ (st', ok tt)
    unfolding run
    run-full_log row h = elim (Bool-cases env.source_fails) [
      | inl a ↦ cc (ap (λ o. o.1) (rw (run, a) at h))
      | inr a ↦ elim (Bool-cases env.wiki_fails) [
        | inl c ↦ cc (ap (λ o. o.1) (rw (run, a, row, c) at h))
        | inr c ↦
            full-after_plan (planned source_id env.timestamp st.repo) refl
              (rw (run, a, row, c) at h)
      ]
    ]
