-- ===== src/PgStore/Jobs/Leases.antt =====
-- A lease keeps its job from all other workers.
use qpedia.Prelude.{
  ℕ, ◌+◌, ◌≤◌, ◌≡◌, ◌≢◌, refl, ap, sym, ◌∙◌, true, false, Option, none, some, List, [], ◌∷◌, ◌++◌,
  ◌&&◌, ◌||◌, leb, arith, ◌==◌, All, inl, inr, Bool-cases, ==_iff,
}
use mathlib.Core.Option.{some-injective}
use mathlib.Core.Bool.{false≢true}
use native.Mathlib.Nat.{le_refl}
use qpedia.Core.Job.{JobState, queued, running, done, failed, dead, is_queued, is_running}
use qpedia.Text.{Text}
use qpedia.PgStore.Jobs.{
  Row, Table, Event, enqueues, claims, completes, fails, step, run, is_due, lapsed, leased,
  find_row, claim_next_job, update_row, retried, killed, enqueue,
}
use qpedia.PgStore.Jobs.Keys.{
  IsValid, find_row_of_listed, find_row-update_row, step-IsValid, run-IsValid, KeepsKey,
}
use qpedia.PgStore.Jobs.Claims.{Claimed, IsClaim, claim_next_job_lem}

-- A job in this state, with this lease, is not to be had before `until`.
abbrev IsBusyState : JobState → Option ℕ → ℕ → Type 0
IsBusyState queued locked_until until = ⊥
IsBusyState running none until = Unit
IsBusyState running (some u) until = until ≤ u
IsBusyState _ locked_until until = Unit

abbrev IsBusy : ℕ → Row → Type 0
IsBusy until r = IsBusyState r.state r.locked_until until

abbrev IsHeld : ℕ → ℕ → Table → Type 0
IsHeld id until t = (r : Row) × (find_row id t.rows ≡ some r) × IsBusy until r

-- Claims come before `until`, and no worker gives the job `id` back for a retry.
abbrev pub IsWithin : ℕ → ℕ → Event → Type 0
IsWithin id until (claims now worker_id lease_ms) = now ≤ until
IsWithin id until (fails now j msg (some delay)) = j ≢ id
IsWithin id until _ = Unit

abbrev pub IsNot : ℕ → Option Row → Type 0
IsNot id none = Unit
IsNot id (some c) = c.id ≢ id

busy_state :
    (state : JobState) (locked_until : Option ℕ) (now next until : ℕ)
    → IsBusyState state locked_until until
    → now ≤ until
    → ((is_queued state && leb next now) || (is_running state && lapsed now locked_until)) ≡ false
busy_state queued o now next until h k = absurd h
busy_state running none now next until h k = refl
busy_state running (some u) now next until h k = ground arith
busy_state done o now next until h k = refl
busy_state failed o now next until h k = refl
busy_state dead o now next until h k = refl

busy-is_due : (r : Row) (now until : ℕ) → IsBusy until r → now ≤ until → is_due now r ≡ false
unfolding is_due
busy-is_due r now until h k = busy_state r.state r.locked_until now r.next_run_at until h k

find_row-append :
    (id : ℕ) (rows : List Row) (x r : Row)
    → find_row id rows ≡ some r
    → find_row id (rows ++ x ∷ []) ≡ some r
unfolding find_row
find_row-append id [] x r h = cc
find_row-append id (s ∷ rows) x r h = ground (arith, find_row-append id rows x r)

other_key : (j k : ℕ) → (j == k) ≡ false → j ≢ k
other_key j k h = ground arith

ne_test : (j k : ℕ) → j ≢ k → (j == k) ≡ false
ne_test j k h = ground arith

eq_test : (j k : ℕ) → j ≡ k → (j == k) ≡ true
eq_test j k h = ground arith

Claimed-key :
    {now : ℕ} {worker_id : Text} {lease_ms : ℕ} {t t' : Table} {c : Row}
    (x : Claimed now worker_id lease_ms t t' c)
    → c.id ≡ x.row.id
unfolding leased
Claimed-key x = ap (λ (r : Row). r.id) x.returned

module _ (id until : ℕ) where
  update-keeps :
      (k : ℕ) (f : Row → Row) (t : Table)
      → KeepsKey f
      → ((r : Row) → IsBusy until r → IsBusy until (f r))
      → IsHeld id until t
      → IsHeld id until (record t { rows = update_row k f t.rows })
  update-keeps k f t key keep (r, found, busy) = elim (Bool-cases (k == id)) [
    | inl e ↦ (f r, find_row-update_row k f id t.rows key ∙ rw (e, found), keep r busy)
    | inr e ↦ (r, find_row-update_row k f id t.rows key ∙ rw (e, found), busy)
  ]

  claim-keeps :
      (now : ℕ) (worker_id : Text) (lease_ms : ℕ) (t : Table) (o : Table × Option Row)
      → IsValid t
      → now ≤ until
      → IsHeld id until t
      → IsClaim now worker_id lease_ms t o
      → IsHeld id until o.0 × IsNot id o.1
  claim-keeps now w l t (t', none) v k h (same, _) = (rw same h, tt)
  claim-keeps now w l t (t', some c) v k (r, found, busy) claimed =
      elim (Bool-cases (claimed.row.id == id)) [
        | inl e ↦ absurd (held_is_idle claimed ((==_iff _ _).0 e))
        | inr e ↦ (
          (r, claimed.written id ∙ rw e found, busy),
          λ p. other_key _ id e (sym (Claimed-key claimed) ∙ p),
        )
      ]
    where
      held_is_idle : (x : Claimed now w l t t' c) → x.row.id ≡ id → ⊥
      held_is_idle x e =
          let same : some x.row ≡ some r =
            sym (find_row_of_listed x.row t.rows v.distinct x.listed) ∙ rw e found in
          false≢true (
            sym (busy-is_due r now until busy k)
            ∙ ap (is_due now) (sym (some-injective _ _ same))
            ∙ x.due)

  step-keeps :
      (e : Event) (t : Table)
      → IsValid t
      → IsWithin id until e
      → IsHeld id until t
      → IsHeld id until (step e t).0
  unfolding step
  step-keeps (enqueues tenant job) t v k (r, found, busy) =
      (r, unfold enqueue in find_row-append id t.rows _ r found, busy)
  step-keeps (claims now w l) t v k h =
      (claim-keeps now w l t (claim_next_job now w l t) v k h (claim_next_job_lem now w l t v)).0
  step-keeps (completes now j) t v k h = update-keeps j _ t (λ r. refl) (λ r b. tt) h
  step-keeps (fails now j msg none) t v k h =
      update-keeps j (killed now msg) t (λ r. unfold killed in refl) (λ r b. unfold killed in tt) h
  step-keeps (fails now j msg (some d)) t v k (r, found, busy) = (
    r,
    find_row-update_row j (retried now msg d) id t.rows (λ x. unfold retried in refl)
        ∙ rw (ne_test j id k) found,
    busy,
  )

  run-keeps :
      (es : List Event) (t : Table)
      → IsValid t
      → All (IsWithin id until) es
      → IsHeld id until t
      → IsHeld id until (run es t)
  unfolding run
  run-keeps [] t v w h = h
  run-keeps (e ∷ es) t v (w, ws) h =
      run-keeps es (step e t).0 (step-IsValid e t v) ws (step-keeps e t v w h)

Claimed-IsHeld :
    (now : ℕ) (worker_id : Text) (lease_ms : ℕ) (t t' : Table) (c : Row)
    → Claimed now worker_id lease_ms t t' c
    → IsHeld c.id (now + lease_ms) t'
unfolding leased
Claimed-IsHeld now w l t t' c x =
    (c, x.written c.id ∙ rw (eq_test _ _ (sym (Claimed-key x))), busy_of_leased)
  where
    busy_of_leased : IsBusy (now + l) c
    busy_of_leased = rw x.returned (le_refl (now + l))

-- A job that was claimed is claimed by nobody else before its lease ends, whatever the workers and the
-- server ask of the table meanwhile, as long as no worker gives the job back for a retry.
pub lease_excludes :
    (t t' : Table) (c : Row) (es : List Event) (start now : ℕ) (worker_id other_worker : Text)
    (lease_ms other_lease : ℕ)
    → IsValid t
    → claim_next_job start worker_id lease_ms t ≡ (t', some c)
    → All (IsWithin c.id (start + lease_ms)) es
    → now ≤ start + lease_ms
    → IsNot c.id (claim_next_job now other_worker other_lease (run es t')).1
unfolding step
lease_excludes t t' c es start now w w' l l' v e k h =
    let held : IsHeld c.id (start + l) t' =
      Claimed-IsHeld start w l t t' c (rw e at (claim_next_job_lem start w l t v)) in
    let v' : IsValid t' =
      rw (ap (λ (o : Table × Option Row). o.0) e) at (step-IsValid (claims start w l) t v) in
    let later = run-keeps c.id (start + l) es t' v' k held in
    (claim-keeps c.id (start + l) now w' l' (run es t') (claim_next_job now w' l' (run es t'))
      (run-IsValid es t' v') h later
      (claim_next_job_lem now w' l' (run es t') (run-IsValid es t' v'))).1
