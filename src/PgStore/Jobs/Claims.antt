-- ===== src/PgStore/Jobs/Claims.antt =====
-- What `claim_next_job` returns.
use qpedia.Prelude.{
  ℕ, ◌≤◌, ◌≡◌, refl, inl, inr, true, false, Option, none, some, List, [], ◌∷◌, arith, ◌==◌, leb,
  if◌then◌else◌, Bool-cases, All, All-map, ==_iff, Any, here, there,
}
use mathlib.Core.Option
use native.Mathlib.Nat.{le_trans}
use qpedia.Text.{Text}
use qpedia.PgStore.Jobs.{
  Row, Table, is_due, earlier, first_due, leased, find_row, claim_row, claim_next_job,
}
use qpedia.PgStore.Jobs.Keys.{IsValid, find_row-update_row, find_row_of_listed, leased-KeepsKey}

-- No row that is due comes before `r`.
abbrev pub IsEarliest : ℕ → Row → List Row → Type 0
IsEarliest now r rows = All (λ s. is_due now s ≡ true → r.next_run_at ≤ s.next_run_at) rows

-- What `first_due` looks for.
abbrev pub IsFirstDue : ℕ → List Row → Option Row → Type 0
IsFirstDue now rows none = All (λ s. is_due now s ≡ false) rows
IsFirstDue now rows (some r) = (is_due now r ≡ true) × Any (λ s. s ≡ r) rows × IsEarliest now r rows

idle_later :
    (now : ℕ) (r s : Row)
    → is_due now s ≡ false
    → is_due now s ≡ true
    → r.next_run_at ≤ s.next_run_at
idle_later now r s p q = cc

later_still :
    (now : ℕ) (r s : Row)
    → r.next_run_at ≤ s.next_run_at
    → (x : Row) → (is_due now x ≡ true → s.next_run_at ≤ x.next_run_at)
    → is_due now x ≡ true
    → r.next_run_at ≤ x.next_run_at
later_still now r s h x k p = le_trans h (k p)

add_row :
    (now : ℕ) (s : Row) (rows : List Row) (o : Option Row)
    → IsFirstDue now rows o
    → IsFirstDue now (s ∷ rows) (if is_due now s then earlier s o else o)
add_row now s rows none h = elim (Bool-cases (is_due now s)) [
  | inl e ↦ rw e (e, here refl, ((λ p. omega arith), All-map (idle_later now s) rows h))
  | inr e ↦ rw e (e, h)
]
add_row now s rows (some r) (d, m, e) = elim (Bool-cases (is_due now s)) [
  | inl due ↦ elim (Bool-cases (leb s.next_run_at r.next_run_at)) [
    | inl q ↦
        rw (due, q)
          (
            due,
            here refl,
            ((λ p. omega arith), All-map (later_still now s r (ground arith)) rows e),
          )
    | inr q ↦ rw (due, q) (d, there m, ((λ p. ground arith), e))
  ]
  | inr idle ↦ rw idle (d, there m, (idle_later now r s idle, e))
]

pub first_due-IsFirstDue : (now : ℕ) (rows : List Row) → IsFirstDue now rows (first_due now rows)
unfolding first_due
first_due-IsFirstDue now [] = tt
first_due-IsFirstDue now (s ∷ rows) =
    add_row now s rows (first_due now rows) (first_due-IsFirstDue now rows)

-- A claim found `r` due, before all others that are due, and leased it: `c` is what it returned, and
-- the table has changed at the key of `r` alone.
pub record Claimed (now : ℕ) (worker_id : Text) (lease_ms : ℕ) (t t' : Table) (c : Row)
    : Type 0 where
  pub row : Row
  pub listed : Any (λ s. s ≡ row) t.rows
  pub due : is_due now row ≡ true
  pub earliest : IsEarliest now row t.rows
  pub returned : c ≡ leased now worker_id lease_ms row
  pub written :
      (id : ℕ) → find_row id t'.rows ≡ (if row.id == id then some c else find_row id t.rows)

abbrev pub IsClaim : ℕ → Text → ℕ → Table → Table × Option Row → Type 0
IsClaim now worker_id lease_ms t (t', none) = (t' ≡ t) × All (λ r. is_due now r ≡ false) t.rows
IsClaim now worker_id lease_ms t (t', some c) = Claimed now worker_id lease_ms t t' c

claim_row-IsClaim :
    (now : ℕ) (worker_id : Text) (lease_ms : ℕ) (t : Table) (o : Option Row)
    → IsValid t
    → IsFirstDue now t.rows o
    → IsClaim now worker_id lease_ms t (claim_row now worker_id lease_ms t o)
unfolding claim_row
claim_row-IsClaim now w l t none v h = (refl, h)
claim_row-IsClaim now w l t (some r) v (d, m, e) = record {
  row = r;
  listed = m;
  due = d;
  earliest = e;
  returned = refl;
  written = λ id.
      rw (find_row-update_row r.id (leased now w l) id t.rows (leased-KeepsKey now w l))
        (written id);
}
  where
    written :
        (id : ℕ)
        → (if r.id == id
            then Option.map (leased now w l) (find_row id t.rows)
            else find_row id t.rows)
          ≡ (if r.id == id then some (leased now w l r) else find_row id t.rows)
    written id = elim (Bool-cases (r.id == id)) [
      | inl e ↦ rw (e, ← (==_iff _ _).0 e, find_row_of_listed r t.rows v.distinct m)
      | inr e ↦ rw e
    ]

-- On a table with distinct keys, `claim_next_job` leases to the worker a row that is due (queued with
-- its time come, or running with a lapsed lease) and before which no due row comes, changes no other
-- row and returns the leased row; it returns none, and changes nothing, only if no row is due.
pub claim_next_job_lem :
    (now : ℕ) (worker_id : Text) (lease_ms : ℕ) (t : Table)
    → IsValid t
    → IsClaim now worker_id lease_ms t (claim_next_job now worker_id lease_ms t)
unfolding claim_next_job
claim_next_job_lem now w l t v =
    claim_row-IsClaim now w l t (first_due now t.rows) v (first_due-IsFirstDue now t.rows)
