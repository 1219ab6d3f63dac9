-- ===== src/Ingest/Runner/Rounds.antt =====
-- What one round of the worker's loop does to the table of jobs and to the source.
use qpedia.Prelude.{
  leb→le, not_leb→lt, ℕ, ◌+◌, ◌≤◌, ◌<◌, ◌==◌, leb, ◌≡◌, refl, sym, ap, ◌∙◌, subst, true, false,
  Bool-cases, ◌⊎◌, inl, inr, Option, none, some, List, All, Any, here, there, [], ◌∷◌, Result, ok,
  err, arith, if◌then◌else◌,
}
use mathlib.Core.Option
use qpedia.Text.{Text}
use qpedia.Core.Job.{queued, done, dead}
use qpedia.PgStore.Jobs.{
  Row, Table, returned, is_due, find_row, update_row, retried, leased, claim_next_job, complete_job,
  fail_job,
}
use qpedia.PgStore.Jobs.Keys.{IsValid, KeepsKey, find_row-update_row}
use qpedia.PgStore.Jobs.Claims.{IsClaim, claim_next_job_lem}
use qpedia.Ingest.Runner.{
  JobError, Handlers, dispatch, ingest_target, mark, after_fail, after_handle, lease_ms, claimed,
  round,
}

-- The row with this key, and what is true of it.
abbrev pub Finds : ℕ → Table → (Row → Type 0) → Type 0
Finds id t P = (r : Row) × (find_row id t.rows ≡ some r) × P r

eq_self : (k : ℕ) → (k == k) ≡ true
eq_self k = ground arith

find_updated :
    (id : ℕ) (f : Row → Row) (t : Table) (r : Row)
    → KeepsKey f
    → find_row id t.rows ≡ some r
    → find_row id (update_row id f t.rows) ≡ some (f r)
find_updated id f t r keeps h =
    find_row-update_row id f id t.rows keeps
    ∙ ap (λ b. if b then Option.map f (find_row id t.rows) else find_row id t.rows) (eq_self id)
    ∙ ap (Option.map f) h

module _ {W : Type 0} (h : Handlers W) where
  -- How the handling of a job ends, by what its handler returned with the world `w`. The attempt counts
  -- the claim of this round.
  abbrev pub EndsAs : Row → ℕ → W × Result JobError (Unit {0}) → Table × W → Type 0
  EndsAs c later (w, ok _) (t, w') = Finds c.id t (λ r. r.state ≡ done) × (w' ≡ w)
  EndsAs c later (w, err e) (t, w') =
      ((c.attempt < c.max_attempts)
        × Finds c.id t
            (λ r. (r.state ≡ queued) × (r.next_run_at ≡ later + 5000) × (r.locked_by ≡ none))
        × (w' ≡ w))
      ⊎ ((c.max_attempts ≤ c.attempt)
          × Finds c.id t (λ r. r.state ≡ dead)
          × (w' ≡ mark h (ingest_target h c.job) (h.render e) w))

  complete-EndsAs :
      (later : ℕ) (c : Row) (t : Table)
      → find_row c.id t.rows ≡ some c
      → Finds c.id (complete_job later c.id t) (λ r. r.state ≡ done)
  unfolding complete_job
  complete-EndsAs later c t found = (
    record c { job = record (c.job) { state = done; updated_at = later } },
    find_updated c.id (λ r. record r { job = record (r.job) { state = done; updated_at = later } })
        t c (λ r. refl) found,
    refl,
  )

  failed-EndsAs :
      (later : ℕ) (c : Row) (t : Table) (w : W) (e : JobError)
      → find_row c.id t.rows ≡ some c
      → EndsAs c later
          (w, err e)
          (after_fail h c.job (h.render e) w (fail_job later c.id (h.render e) (some 5000) t))
  unfolding after_fail fail_job retried returned
  failed-EndsAs later c t w e found =
      let there = find_updated c.id (retried later (h.render e) 5000) t c (λ r. refl) found in
      elim (Bool-cases (leb c.max_attempts c.attempt)) [
        | inl k ↦
            rw (there, k)
              (inr (
                leb→le c.max_attempts c.attempt k,
                (retried later (h.render e) 5000 c, there, ap (λ b. if b then dead else queued) k),
                refl,
              ))
        | inr k ↦
            rw (there, k)
              (inl (
                not_leb→lt c.max_attempts c.attempt k,
                (
                  retried later (h.render e) 5000 c,
                  there,
                  (ap (λ b. if b then dead else queued) k, refl, refl),
                ),
                refl,
              ))
      ]

  after_handle-EndsAs :
      (later : ℕ) (c : Row) (t : Table) (o : W × Result JobError (Unit {0}))
      → find_row c.id t.rows ≡ some c
      → EndsAs c later o (after_handle h later c t o)
  unfolding after_handle
  after_handle-EndsAs later c t (w, ok _) found = (complete-EndsAs later c t found, refl)
  after_handle-EndsAs later c t (w, err e) found = failed-EndsAs later c t w e found

-- The row was due, and `c` is what a claim makes of it, its attempt counted.
abbrev pub WasDue : ℕ → Row → Row → Type 0
WasDue now c r =
    (is_due now r ≡ true)
    × (c.job.kind ≡ r.kind)
    × (c.job.payload ≡ r.payload)
    × (c.attempt ≡ r.attempt + 1)
    × (c.id ≡ r.id)

-- A round of the worker's loop.
abbrev pub IsRound : {W : Type 0} → Handlers W → ℕ → ℕ → Table → W → Table × W → Type 0
IsRound h now later t w (t', w') =
    (All (λ r. is_due now r ≡ false) t.rows × (t' ≡ t) × (w' ≡ w))
    ⊎ ((c : Row) × Any (WasDue now c) t.rows
        × EndsAs h c later (dispatch h c.job.kind c.job.payload w) (t', w'))

module _ {W : Type 0} (h : Handlers W) (worker_id : Text) (now later : ℕ) (t : Table) (w : W) where
  listed_as :
      (row : Row) (rows : List Row)
      → is_due now row ≡ true
      → Any (λ s. s ≡ row) rows
      → Any (WasDue now (leased now worker_id lease_ms row)) rows
  unfolding leased
  listed_as row [] d m = elim m [ ]
  listed_as row (s ∷ rows) d (here e) = here (rw e (d, refl, refl, refl, refl))
  listed_as row (s ∷ rows) d (there m) = there (listed_as row rows d m)

  claimed-IsRound :
      (o : Table × Option Row)
      → IsClaim now worker_id lease_ms t o
      → IsRound h now later t w (claimed h later w o)
  unfolding claimed leased
  claimed-IsRound (t', none) (same, idle) = inl (idle, same, refl)
  claimed-IsRound (t', some c) cl = inr (
    c,
    subst (λ x. Any (WasDue now x) t.rows) (sym cl.returned)
        (listed_as cl.row t.rows cl.due cl.listed),
    after_handle-EndsAs h later c t' (dispatch h c.job.kind c.job.payload w) (
        cl.written c.id
        ∙ ap (λ b. if b then some c else find_row c.id t.rows)
            (subst (λ x. (cl.row.id == x.id) ≡ true) (sym cl.returned) (eq_self cl.row.id))),
  )

  -- In a round either no job is due and nothing changes, or one job that is due is handled, its attempt
  -- counted. If its handler succeeds the job is done. If it fails and tries are left, the job is queued
  -- again for five seconds later, without a lease, and the source is not marked; if it fails at the last
  -- try the job is dead, and the source of an ingest job is marked as failed.
  pub round-IsRound : IsValid t → IsRound h now later t w (round h worker_id now later t w)
  unfolding round
  round-IsRound v =
      claimed-IsRound (claim_next_job now worker_id lease_ms t)
        (claim_next_job_lem now worker_id lease_ms t v)
