-- ===== src/PgStore/Jobs/Tests.antt =====
-- Runs of the job queue, and the theorems at inputs that meet their hypotheses.
use qpedia.Prelude.{◌+◌, false, List, ◌≡◌, refl, none, some, [], ◌∷◌, arith, false, ok}
use qpedia.Text.{codes}
use qpedia.Core.Job.{Job, ingest, queued, running, done}
use qpedia.PgStore.Jobs.{
  Row, Table, Event, claims, completes, fails, is_due, claim_next_job, fail_job, run,
}
use qpedia.PgStore.Jobs.Keys.{IsValid}
use qpedia.PgStore.Jobs.Claims.{IsClaim, claim_next_job_lem}
use qpedia.PgStore.Jobs.Leases.{IsNot, lease_excludes}
use qpedia.PgStore.Jobs.Retries.{IsWithinLimit, attempts-le-max_attempts, reclaim_past_max_attempts}

abbrev fresh_job : Job
fresh_job = record {
  kind = ingest;
  payload = record {
    tenant = some (codes "acme");
    source_id = some (codes "7");
    connector_id = none;
  };
  state = queued;
  attempt = 0;
  max_attempts = 5;
  next_run_at = 100;
  last_error = none;
  created_at = 100;
  updated_at = 100;
}

abbrev queued_row : Row
queued_row = record {
  id = 1;
  tenant = codes "acme";
  job = fresh_job;
  locked_by = none;
  locked_until = none;
}

abbrev table : Table
table = record { next_id = 2; rows = queued_row ∷ [] }

abbrev leased_row : Row
leased_row = record {
  id = 1;
  tenant = codes "acme";
  job = record fresh_job { state = running; attempt = 1; updated_at = 150 };
  locked_by = some (codes "w1");
  locked_until = some 1150;
}

abbrev last_row : Row
last_row = record leased_row { job = record (leased_row.job) { attempt = 5 } }

abbrev leased_table : Table
leased_table = record { next_id = 2; rows = leased_row ∷ [] }

claims_it : claim_next_job 150 (codes "w1") 1000 table ≡ (leased_table, some leased_row)
unfolding claim_next_job
claims_it = refl

retry_test : (fail_job 200 1 (codes "boom") (some 5000) leased_table).1 ≡ ok false
unfolding fail_job
retry_test = refl

table-IsValid : IsValid table
table-IsValid = omega arith

claim_next_job_example :
    IsClaim 150 (codes "w1") 1000 table (claim_next_job 150 (codes "w1") 1000 table)
claim_next_job_example = claim_next_job_lem 150 (codes "w1") 1000 table table-IsValid

lease_excludes_example :
    IsNot 1
      (claim_next_job 1150
        (codes "w2")
        1000
        (run (claims 500 (codes "w3") 9 ∷ completes 600 1 ∷ []) leased_table)).1
lease_excludes_example =
    lease_excludes table leased_table leased_row (claims 500 (codes "w3") 9 ∷ completes 600 1 ∷ [])
      150 1150 (codes "w1") (codes "w2") 1000 1000 table-IsValid claims_it (omega arith)
      (omega arith)

abbrev retrying : List Event
retrying = claims 150 (codes "w1") 1000 ∷ fails 200 1 (codes "boom") (some 5000) ∷ []

attempts-le-max_attempts_example :
    IsWithinLimit (claim_next_job 5200 (codes "w1") 1000 (run retrying table)).1
unfolding run
attempts-le-max_attempts_example =
    attempts-le-max_attempts retrying table 5200 (codes "w1") 1000 table-IsValid (omega arith, tt)
      (((λ p. cc), tt), (tt, tt)) ((λ p. cc), tt)

waiting_idle :
    is_due 1200 (record last_row { id = 3; job = record (last_row.job) { state = done } }) ≡ false
unfolding is_due
waiting_idle = refl

reclaim_past_max_attempts_example :
    (claim_next_job 1200 (codes "w2") 1000 (record {
      next_id = 4;
      rows =
          record last_row { id = 3; job = record (last_row.job) { state = done } } ∷ last_row ∷ [];
    })).1
    ≡ some (record last_row {
      job = record (last_row.job) {
        state = running;
        attempt = last_row.attempt + 1;
        updated_at = 1200;
      };
      locked_by = some (codes "w2");
      locked_until = some 2200;
    })
reclaim_past_max_attempts_example =
    reclaim_past_max_attempts last_row
      (record last_row { id = 3; job = record (last_row.job) { state = done } } ∷ []) [] 4 1200 1150
      (codes "w2") 1000 refl refl (omega arith) (omega arith) (waiting_idle, tt) tt
