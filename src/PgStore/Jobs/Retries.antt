-- ===== src/PgStore/Jobs/Retries.antt =====
-- How often a job is tried.
use qpedia.Prelude.{
  ℕ, ◌+◌, ◌≤◌, ◌<◌, ◌≡◌, ◌≢◌, refl, true, false, Option, none, some, List, [], ◌∷◌, ◌++◌, arith,
  ◌==◌, leb, ◌&&◌, ◌||◌, All, All-append, lt→ltb, All-Any, Any, here, there, Bool-cases, inl, inr,
}
use qpedia.Core.Job.{JobState, queued, running, done, failed, dead, is_queued, is_running}
use qpedia.Text.{Text}
use qpedia.PgStore.Jobs.{
  Row, Table, Event, enqueues, claims, completes, fails, step, run, is_due, lapsed, first_due,
  leased, retried, killed, update_row, enqueue, claim_row, claim_next_job,
}
use qpedia.PgStore.Jobs.Keys.{IsDistinct, IsValid, keys, step-IsValid, run-IsValid}
use qpedia.PgStore.Jobs.Claims.{IsFirstDue, first_due-IsFirstDue}

-- A queued job may be tried again; a running one is at its last attempt at most.
abbrev pub IsCounted : JobState → ℕ → ℕ → Type 0
IsCounted queued attempt max_attempts = attempt < max_attempts
IsCounted running attempt max_attempts = attempt ≤ max_attempts
IsCounted _ attempt max_attempts = Unit

abbrev pub HasTries : Row → Type 0
HasTries r = IsCounted r.state r.attempt r.max_attempts

-- No running job has lost its lease.
abbrev pub NoneLapsed : ℕ → Table → Type 0
NoneLapsed now t = All (λ r. is_running r.state ≡ true → lapsed now r.locked_until ≡ false) t.rows

abbrev pub IsTimely : Event → Table → Type 0
IsTimely (enqueues tenant job) t = IsCounted job.state job.attempt job.max_attempts
IsTimely (claims now worker_id lease_ms) t = NoneLapsed now t
IsTimely _ t = Unit

abbrev pub AllTimely : List Event → Table → Type 0
AllTimely [] t = Unit
AllTimely (e ∷ es) t = IsTimely e t × AllTimely es (step e t).0

eq_self : (k : ℕ) → (k == k) ≡ true
eq_self k = ground arith

ne_test : (j k : ℕ) → j ≢ k → (k == j) ≡ false
ne_test j k h = ground arith

ne_listed :
    (r : Row) (k : ℕ) (rows : List Row)
    → All (λ j. j ≢ k) (keys rows)
    → Any (λ s. s ≡ r) rows
    → (k == r.id) ≡ false
ne_listed r k [] h m = elim m [ ]
ne_listed r k (s ∷ rows) (h, hs) (here e) = ne_test r.id k (rw e at h)
ne_listed r k (s ∷ rows) (h, hs) (there m) = ne_listed r k rows hs m

update_row_absent :
    (k : ℕ) (f : Row → Row) (rows : List Row)
    → All (λ j. j ≢ k) (keys rows)
    → update_row k f rows ≡ rows
unfolding update_row
update_row_absent k f [] h = refl
update_row_absent k f (r ∷ rows) (h, hs) = ground (arith, update_row_absent k f rows hs)

All-update_each :
    (k : ℕ) (f : Row → Row) (rows : List Row)
    → ((r : Row) → HasTries r → HasTries (f r))
    → All HasTries rows
    → All HasTries (update_row k f rows)
unfolding update_row
All-update_each k f [] h a = tt
All-update_each k f (r ∷ rows) h (a, more) = elim (Bool-cases (r.id == k)) [
  | inl e ↦ rw e (h r a, All-update_each k f rows h more)
  | inr e ↦ rw e (a, All-update_each k f rows h more)
]

-- A row that the table lists, and that has this state and count, is changed to one that has tries.
All-update_one :
    (r : Row) (f : Row → Row) (rows : List Row)
    → IsDistinct (keys rows)
    → Any (λ s. s ≡ r) rows
    → (HasTries r → HasTries (f r))
    → All HasTries rows
    → All HasTries (update_row r.id f rows)
unfolding update_row
All-update_one r f [] d m h a = tt
All-update_one r f (s ∷ rows) (d, ds) (here e) h (a, more) =
    let same : (s.id == r.id) ≡ true = rw e (eq_self r.id) in
    let absent : All (λ j. j ≢ r.id) (keys rows) = rw e at d in
    rw (same, update_row_absent r.id f rows absent) (rw e (h (rw e at a)), more)
All-update_one r f (s ∷ rows) (d, ds) (there m) h (a, more) =
    rw (ne_listed r s.id rows d m) (a, All-update_one r f rows ds m h more)

due_counts :
    (state : JobState) (locked_until : Option ℕ) (now next attempt limit : ℕ)
    → (is_running state ≡ true → lapsed now locked_until ≡ false)
    → ((is_queued state && leb next now) || (is_running state && lapsed now locked_until)) ≡ true
    → IsCounted state attempt limit
    → attempt + 1 ≤ limit
due_counts queued o now next a m h d c = omega arith
due_counts running o now next a m h d c = ground (arith, h refl)
due_counts done o now next a m h d c = cc
due_counts failed o now next a m h d c = cc
due_counts dead o now next a m h d c = cc

leased-HasTries :
    (now : ℕ) (worker_id : Text) (lease_ms : ℕ) (r : Row)
    → (is_running r.state ≡ true → lapsed now r.locked_until ≡ false)
    → is_due now r ≡ true
    → HasTries r
    → HasTries (leased now worker_id lease_ms r)
unfolding leased is_due
leased-HasTries now w l r h d a =
    due_counts r.state r.locked_until now r.next_run_at r.attempt r.max_attempts h d a

retried-HasTries : (now : ℕ) (msg : Text) (delay : ℕ) (r : Row) → HasTries (retried now msg delay r)
unfolding retried
retried-HasTries now msg delay r = elim (Bool-cases (leb r.max_attempts r.attempt)) [
  | inl e ↦ rw e tt
  | inr e ↦ rw e (ground arith)
]

abbrev pub IsWithinLimit : Option Row → Type 0
IsWithinLimit none = Unit
IsWithinLimit (some c) = c.attempt ≤ c.max_attempts

claim_row-HasTries :
    (now : ℕ) (worker_id : Text) (lease_ms : ℕ) (t : Table) (o : Option Row)
    → IsValid t
    → NoneLapsed now t
    → IsFirstDue now t.rows o
    → All HasTries t.rows
    → All HasTries (claim_row now worker_id lease_ms t o).0.rows
      × IsWithinLimit (claim_row now worker_id lease_ms t o).1
unfolding claim_row
claim_row-HasTries now w l t none v n h a = (a, tt)
claim_row-HasTries now w l t (some r) v n (d, m, e) a =
    let fresh =
      leased-HasTries now w l r
        (All-Any (λ s. is_running s.state ≡ true → lapsed now s.locked_until ≡ false) r t.rows n m)
        d in
    (
      All-update_one r (leased now w l) t.rows v.distinct m fresh a,
      unfold leased in fresh (All-Any HasTries r t.rows a m),
    )

claim_next_job-HasTries :
    (now : ℕ) (worker_id : Text) (lease_ms : ℕ) (t : Table)
    → IsValid t
    → NoneLapsed now t
    → All HasTries t.rows
    → All HasTries (claim_next_job now worker_id lease_ms t).0.rows
      × IsWithinLimit (claim_next_job now worker_id lease_ms t).1
unfolding claim_next_job
claim_next_job-HasTries now w l t v n a =
    claim_row-HasTries now w l t (first_due now t.rows) v n (first_due-IsFirstDue now t.rows) a

step-HasTries :
    (e : Event) (t : Table)
    → IsValid t
    → IsTimely e t
    → All HasTries t.rows
    → All HasTries (step e t).0.rows
unfolding step
step-HasTries (enqueues tenant job) t v k a =
    unfold enqueue in All-append HasTries t.rows _ a (k, tt)
step-HasTries (claims now w l) t v k a = (claim_next_job-HasTries now w l t v k a).0
step-HasTries (completes now id) t v k a = All-update_each id _ t.rows (λ r h. tt) a
step-HasTries (fails now id msg none) t v k a =
    All-update_each id (killed now msg) t.rows (λ r h. unfold killed in tt) a
step-HasTries (fails now id msg (some d)) t v k a =
    All-update_each id (retried now msg d) t.rows (λ r h. retried-HasTries now msg d r) a

run-HasTries :
    (es : List Event) (t : Table)
    → IsValid t
    → AllTimely es t
    → All HasTries t.rows
    → All HasTries (run es t).rows
unfolding run
run-HasTries [] t v k a = a
run-HasTries (e ∷ es) t v (k, ks) a =
    run-HasTries es (step e t).0 (step-IsValid e t v) ks (step-HasTries e t v k a)

-- As long as no lease lapses before its job is completed or failed, a claim after any events returns
-- a job with at most `max_attempts` attempts, if the table started with jobs that had tries left.
pub attempts-le-max_attempts :
    (es : List Event) (t : Table) (now : ℕ) (worker_id : Text) (lease_ms : ℕ)
    → IsValid t
    → All HasTries t.rows
    → AllTimely es t
    → NoneLapsed now (run es t)
    → IsWithinLimit (claim_next_job now worker_id lease_ms (run es t)).1
attempts-le-max_attempts es t now w l v a k n =
    (claim_next_job-HasTries now w l (run es t) (run-IsValid es t v) n (run-HasTries es t v k a)).1

none_due :
    (now : ℕ) (rows : List Row) → All (λ s. is_due now s ≡ false) rows → first_due now rows ≡ none
unfolding first_due
none_due now [] h = refl
none_due now (s ∷ rows) (h, hs) = rw (first_due, h) (none_due now rows hs)

first_due_only :
    (now : ℕ) (r : Row) (before after : List Row)
    → is_due now r ≡ true
    → All (λ s. is_due now s ≡ false) before
    → All (λ s. is_due now s ≡ false) after
    → first_due now (before ++ r ∷ after) ≡ some r
unfolding first_due
first_due_only now r (s ∷ before) after d (h, hs) k =
    rw (first_due, h) (first_due_only now r before after d hs k)
first_due_only now r [] after d h k = rw (first_due, d, none_due now after k) refl

-- A lapsed lease is not held against the limit: where no other row is due, a running job whose lease has
-- lapsed is claimed again, as it is but for the new lease and one attempt more, also if it has already
-- had `max_attempts` of them.
pub reclaim_past_max_attempts :
    (r : Row) (before after : List Row) (next_id now until : ℕ) (worker_id : Text) (lease_ms : ℕ)
    → r.state ≡ running
    → r.locked_until ≡ some until
    → until < now
    → r.max_attempts ≤ r.attempt
    → All (λ s. is_due now s ≡ false) before
    → All (λ s. is_due now s ≡ false) after
    → (claim_next_job now worker_id lease_ms
        (record { next_id = next_id; rows = before ++ r ∷ after })).1
      ≡ some (record r {
        job = record (r.job) { state = running; attempt = r.attempt + 1; updated_at = now };
        locked_by = some worker_id;
        locked_until = some (now + lease_ms);
      })
unfolding claim_next_job
reclaim_past_max_attempts r before after next_id now until w l e f h m b a =
    let due : is_due now r ≡ true = unfold is_due in rw (e, f, lt→ltb until now h) refl in
    rw (first_due_only now r before after due b a, claim_row) (unfold leased in refl)
