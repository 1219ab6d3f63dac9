-- ===== src/Ingest/Pipeline/Triple.antt =====
-- Conditions on what a phase of the pipeline leaves: one if it succeeds, and one if it fails.
use qpedia.Prelude.{Bool, true, false, Bool-cases, inl, inr, ok, err}
use qpedia.Core.Source.{SourceStatus}
use qpedia.Ingest.Pipeline.{PipelineEnv, State, Outcome, Failure, ◌▷◌, fail_if, update_status}

abbrev pub Leaves : (State → Type 0) → (State → Type 0) → Outcome → Type 0
Leaves P E (st, ok _) = P st
Leaves P E (st, err e) = E st

pub Leaves-▷ :
    (P Q E : State → Type 0) (m : Outcome) (next : State → Outcome)
    → Leaves P E m
    → ((st : State) → P st → Leaves Q E (next st))
    → Leaves Q E (m ▷ next)
Leaves-▷ P Q E (st, ok _) next h k = k st h
Leaves-▷ P Q E (st, err e) next h k = h

pub Leaves-fail_if :
    (P E : State → Type 0) (b : Bool) (e : Failure) (st : State)
    → P st
    → E st
    → Leaves P E (fail_if b e st)
Leaves-fail_if P E true e st h k = k
Leaves-fail_if P E false e st h k = h

-- An update leaves its status, or if it fails what there was.
pub Leaves-update_status :
    (P E : State → Type 0) (env : PipelineEnv) (s : SourceStatus) (st : State)
    → P (record st { status = s })
    → E st
    → Leaves P E (update_status env s st)
unfolding update_status
Leaves-update_status P E env s st h k = elim (Bool-cases (env.update_fails s)) [
  | inl e ↦ rw (update_status, e) k
  | inr e ↦ rw (update_status, e) h
]

pub Leaves-weaken :
    (P Q E F : State → Type 0) (m : Outcome)
    → ((st : State) → P st → Q st)
    → ((st : State) → E st → F st)
    → Leaves P E m
    → Leaves Q F m
Leaves-weaken P Q E F (st, ok _) f g h = f st h
Leaves-weaken P Q E F (st, err e) f g h = g st h
