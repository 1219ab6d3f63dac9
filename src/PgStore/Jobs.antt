-- ===== src/PgStore/Jobs.antt =====
-- crates/qpedia-pg-store/src/jobs.rs. Each query is one atomic change of the table `jobs`; the time is
-- an argument. Rows that are due at the same time are claimed in the order of the table.
pub mod Keys
pub mod Claims
pub mod Leases
pub mod Retries
pub mod Tests
use qpedia.Prelude.{
  ℕ, suc, ◌+◌, Bool, true, false, ◌&&◌, ◌||◌, Option, none, some, List, [], ◌∷◌, ◌++◌, map, ltb,
  leb, ◌==◌, if◌then◌else◌, Result, ok, err, any,
}
use qpedia.Text.{Text}
use qpedia.Core.Job.{Job, JobKind, queued, running, done, dead, is_queued, is_running}

-- A row: the job with its key, tenant and lease.
pub record Row : Type 0 where
  pub id : ℕ
  pub tenant : Text
  pub job : Job
  pub open job use *
  pub locked_by : Option Text
  pub locked_until : Option ℕ

-- `BIGSERIAL` gives the next row the key `next_id`.
pub record Table : Type 0 where
  pub next_id : ℕ
  pub rows : List Row

unfoldable pub enqueue : Text → Job → Table → Table
enqueue tenant job t = record {
  next_id = suc t.next_id;
  rows =
      t.rows
      ++ record {
        id = t.next_id;
        tenant = tenant;
        job = job;
        locked_by = none;
        locked_until = none;
      }
        ∷ [];
}

-- `locked_until < now`, which is not true of NULL.
abbrev pub lapsed : ℕ → Option ℕ → Bool
lapsed now none = false
lapsed now (some until) = ltb until now

unfoldable pub is_due : ℕ → Row → Bool
is_due now r =
    (is_queued r.state && leb r.next_run_at now)
    || (is_running r.state && lapsed now r.locked_until)

abbrev pub earlier : Row → Option Row → Option Row
earlier r none = some r
earlier r (some s) = if leb r.next_run_at s.next_run_at then some r else some s

-- `SELECT … WHERE … ORDER BY next_run_at ASC LIMIT 1`
unfoldable pub first_due : ℕ → List Row → Option Row
unfolding is_due
first_due now [] = none
first_due now (r ∷ rows) =
    let rest = first_due now rows in if is_due now r then earlier r rest else rest

-- `UPDATE jobs SET … WHERE id = …`
unfoldable pub update_row : ℕ → (Row → Row) → List Row → List Row
update_row id f [] = []
update_row id f (r ∷ rows) = (if r.id == id then f r else r) ∷ update_row id f rows

-- The row of a job that a worker has just claimed.
unfoldable pub leased : ℕ → Text → ℕ → Row → Row
leased now worker_id lease_ms r = record r {
  job = record (r.job) { state = running; attempt = r.attempt + 1; updated_at = now };
  locked_by = some worker_id;
  locked_until = some (now + lease_ms);
}

claim_row : ℕ → Text → ℕ → Table → Option Row → Table × Option Row
claim_row now worker_id lease_ms t none = (t, none)
claim_row now worker_id lease_ms t (some r) = (
  record t { rows = update_row r.id (leased now worker_id lease_ms) t.rows },
  some (leased now worker_id lease_ms r),
)

unfoldable pub claim_next_job : ℕ → Text → ℕ → Table → Table × Option Row
unfolding claim_row first_due update_row leased
claim_next_job now worker_id lease_ms t = claim_row now worker_id lease_ms t (first_due now t.rows)

unfoldable pub complete_job : ℕ → ℕ → Table → Table
unfolding update_row
complete_job now id t = record t {
  rows =
      update_row id (λ r. record r { job = record (r.job) { state = done; updated_at = now } })
        t.rows;
}

-- The two updates of `fail_job`: with a retry, and without.
unfoldable pub retried : ℕ → Text → ℕ → Row → Row
retried now msg delay r = record r {
  job = record (r.job) {
    state = if leb r.max_attempts r.attempt then dead else queued;
    last_error = some msg;
    next_run_at = now + delay;
    updated_at = now;
  };
  locked_by = none;
  locked_until = none;
}

unfoldable pub killed : ℕ → Text → Row → Row
killed now msg r = record r {
  job = record (r.job) { state = dead; last_error = some msg; updated_at = now };
}

unfoldable pub find_row : ℕ → List Row → Option Row
find_row id [] = none
find_row id (r ∷ rows) = if r.id == id then some r else find_row id rows

pub data FailError : Type 0 where
  row_not_found : FailError

-- `RETURNING state` with `fetch_one`, which is an error if no row has the key.
unfoldable pub returned : Option Row → Result FailError Bool
returned none = err row_not_found
returned (some r) = ok (elim r.state [ dead ↦ true | _ ↦ false ])

unfoldable pub fail_job : ℕ → ℕ → Text → Option ℕ → Table → Table × Result FailError Bool
unfolding update_row retried killed find_row returned
fail_job now id msg (some delay) t =
    let rows = update_row id (retried now msg delay) t.rows in
    (record t { rows = rows }, returned (find_row id rows))
fail_job now id msg none t = (record t { rows = update_row id (killed now msg) t.rows }, ok true)

-- `SELECT kind, count(*) … WHERE state = 'queued' GROUP BY kind`: the count of one kind.
unfoldable pub pending_job_count : (JobKind → Bool) → List Row → ℕ
pending_job_count of_kind [] = 0
pending_job_count of_kind (r ∷ rows) =
    (if is_queued r.state && of_kind r.kind then 1 else 0) + pending_job_count of_kind rows

-- What the server and its workers ask of the table.
pub data Event : Type 0 where
  enqueues : Text → Job → Event
  claims : (now : ℕ) (worker_id : Text) (lease_ms : ℕ) → Event
  completes : (now id : ℕ) → Event
  fails : (now id : ℕ) (msg : Text) (delay : Option ℕ) → Event

-- The table after an event, and the row that a claim returned.
unfoldable pub step : Event → Table → Table × Option Row
unfolding enqueue claim_next_job complete_job fail_job
step (enqueues tenant job) t = (enqueue tenant job t, none)
step (claims now worker_id lease_ms) t = claim_next_job now worker_id lease_ms t
step (completes now id) t = (complete_job now id t, none)
step (fails now id msg delay) t = ((fail_job now id msg delay t).0, none)

unfoldable pub run : List Event → Table → Table
unfolding step
run [] t = t
run (e ∷ es) t = run es (step e t).0
