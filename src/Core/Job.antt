-- ===== src/Core/Job.antt =====
-- crates/qpedia-core/src/job.rs. The payload keeps the fields of the JSON value that the job runner
-- reads; the trace context is left out.
use qpedia.Prelude.{ℕ, Bool, true, false, Option}
use qpedia.Text.{Text}

pub data JobKind : Type 0 where
  ingest remove lint reembed sync : JobKind

pub data JobState : Type 0 where
  queued running done failed dead : JobState

pub record Payload : Type 0 where
  pub tenant : Option Text
  pub source_id : Option Text
  pub connector_id : Option Text

pub record Job : Type 0 where
  pub kind : JobKind
  pub payload : Payload
  pub state : JobState
  pub attempt : ℕ
  pub max_attempts : ℕ
  pub next_run_at : ℕ
  pub last_error : Option Text
  pub created_at : ℕ
  pub updated_at : ℕ

abbrev pub is_queued : JobState → Bool
is_queued queued = true
is_queued _ = false

abbrev pub is_running : JobState → Bool
is_running running = true
is_running _ = false

abbrev pub is_dead : JobState → Bool
is_dead dead = true
is_dead _ = false

abbrev pub is_ingest : JobKind → Bool
is_ingest ingest = true
is_ingest _ = false
