-- ===== src/Ingest/Runner.antt =====
-- crates/qpedia-ingest/src/runner.rs: the jobs that are built, and one round of the worker's loop. The
-- handlers work on a state `W` of their own, and so do the two updates for a source that failed. An
-- error of `complete_job`, which the runner ignores, and one of `claim_next_job`, after which it waits, are
-- left out.
pub mod Rounds
pub mod Tests
use qpedia.Prelude.{ℕ, Bool, true, false, Option, none, some, List, Result, ok, err, if◌then◌else◌}
use qpedia.Text.{Text, codes}
use qpedia.Core.Job.{
  Job, JobKind, JobState, Payload, queued, ingest, remove, lint, reembed, sync, is_ingest,
}
use qpedia.Core.Source.{SourceStatus}
use qpedia.PgStore.Jobs.{Row, Table, FailError, claim_next_job, complete_job, fail_job}

abbrev new_job : JobKind → Payload → ℕ → ℕ → Job
new_job kind payload max_attempts now = record {
  kind = kind;
  payload = payload;
  state = queued;
  attempt = 0;
  max_attempts = max_attempts;
  next_run_at = now;
  last_error = none;
  created_at = now;
  updated_at = now;
}

unfoldable pub ingest_job : Text → Text → ℕ → Job
ingest_job tenant source_id =
    new_job ingest
      (record { tenant = some tenant; source_id = some source_id; connector_id = none }) 5

unfoldable pub remove_job : Text → Text → ℕ → Job
remove_job tenant source_id =
    new_job remove
      (record { tenant = some tenant; source_id = some source_id; connector_id = none }) 5

unfoldable pub sync_job : Text → Text → ℕ → Job
sync_job tenant connector_id =
    new_job sync
      (record { tenant = some tenant; source_id = none; connector_id = some connector_id }) 3

unfoldable pub reembed_job : Text → ℕ → Job
reembed_job tenant =
    new_job reembed (record { tenant = some tenant; source_id = none; connector_id = none }) 3

unfoldable pub lint_job : Text → ℕ → Job
lint_job tenant =
    new_job lint (record { tenant = some tenant; source_id = none; connector_id = none }) 3

pub data JobError : Type 0 where
  bad_payload : JobError
  handler_failed : Text → JobError

-- The handlers, what marks a source as failed (the status and the audit entry), and how an error reads.
pub record Handlers (W : Type 0) : Type 0 where
  pub run_ingest : Text → Text → W → W × Result JobError (Unit {0})
  pub run_remove : Text → Text → W → W × Result JobError (Unit {0})
  pub run_lint : Text → W → W × Result JobError (Unit {0})
  pub run_reembed : Text → W → W × Result JobError (Unit {0})
  pub run_sync : Text → Text → W → W × Result JobError (Unit {0})
  pub mark_failed : Text → Text → Text → W → W
  pub render : JobError → Text

-- The two fields, if the payload has both.
abbrev both : Option Text → Option Text → Option (Text × Text)
both (some a) (some b) = some (a, b)
both _ _ = none

abbrev pub lease_ms : ℕ
lease_ms = 1800000

module _ {W : Type 0} (h : Handlers W) where
  with_pair :
      Option (Text × Text)
      → (Text → Text → W → W × Result JobError (Unit {0}))
      → W
      → W × Result JobError (Unit {0})
  with_pair none f w = (w, err bad_payload)
  with_pair (some (a, b)) f w = f a b w

  with_tenant :
      Option Text → (Text → W → W × Result JobError (Unit {0})) → W → W × Result JobError (Unit {0})
  with_tenant none f w = (w, err bad_payload)
  with_tenant (some a) f w = f a w

  unfoldable pub dispatch : JobKind → Payload → W → W × Result JobError (Unit {0})
  unfolding with_pair with_tenant
  dispatch ingest p = with_pair (both p.tenant p.source_id) h.run_ingest
  dispatch remove p = with_pair (both p.tenant p.source_id) h.run_remove
  dispatch lint p = with_tenant p.tenant h.run_lint
  dispatch reembed p = with_tenant p.tenant h.run_reembed
  dispatch sync p = with_pair (both p.tenant p.connector_id) h.run_sync

  -- `ingest_target`
  unfoldable pub ingest_target : Job → Option (Text × Text)
  ingest_target job =
      if is_ingest job.kind then both job.payload.tenant job.payload.source_id else none

  unfoldable pub mark : Option (Text × Text) → Text → W → W
  mark none msg w = w
  mark (some (tenant, source_id)) msg w = h.mark_failed tenant source_id msg w

  -- What follows on `fail_job`: its own error is only logged.
  unfoldable pub after_fail : Job → Text → W → Table × Result FailError Bool → Table × W
  unfolding ingest_target mark
  after_fail job msg w (t, ok true) = (t, mark (ingest_target job) msg w)
  after_fail job msg w (t, ok false) = (t, w)
  after_fail job msg w (t, err e) = (t, w)

  unfoldable pub after_handle : ℕ → Row → Table → W × Result JobError (Unit {0}) → Table × W
  unfolding after_fail complete_job fail_job
  after_handle now r t (w, ok _) = (complete_job now r.id t, w)
  after_handle now r t (w, err e) =
      after_fail r.job (h.render e) w (fail_job now r.id (h.render e) (some 5000) t)

  claimed : ℕ → W → Table × Option Row → Table × W
  unfolding dispatch after_handle
  claimed later w (t, none) = (t, w)
  claimed later w (t, some r) = after_handle later r t (dispatch r.job.kind r.job.payload w)

  -- One round: a job that is claimed at `now` has been handled at `later`.
  unfoldable pub round : Text → ℕ → ℕ → Table → W → Table × W
  unfolding claimed claim_next_job
  round worker_id now later t w = claimed later w (claim_next_job now worker_id lease_ms t)
