-- ===== src/Ingest/Pipeline/Tests.antt =====
-- The pipeline at concrete inputs: a source without a model, and one that is distilled.
use qpedia.Prelude.{◌≡◌, refl, true, false, [], ◌∷◌, ok, arith}
use qpedia.Text.{codes}
use qpedia.Core.Wiki.{create, DiffBundle}
use qpedia.Core.Source.{pending, classified, tainted, done}
use qpedia.Store.WikiRepo.{Repo}
use qpedia.Ingest.Pipeline.{PipelineEnv, State, finished, distill, run}
use qpedia.Ingest.Pipeline.Triple.{Leaves}
use qpedia.Ingest.Pipeline.Ends.{IsJobEnd, run-IsJobEnd}
use qpedia.Ingest.Pipeline.Guarded.{IsGuarded, distill-IsGuarded}

abbrev wiki : Repo
wiki = record { tree = []; head = []; log = [] }

abbrev bundle : DiffBundle
bundle = record {
  ingest_id = codes "7";
  operations = create (codes "a.md") (codes "---\ntitle: A\nkind: topic\n---\n") [] ∷ [];
  summary = [];
}

abbrev env : PipelineEnv
env = record {
  mime = codes "text/plain";
  has_llm = true;
  has_embedder = false;
  handles_mime = true;
  update_fails = λ s. false;
  audit_fails = λ s. false;
  original_fails = false;
  extract_fails = false;
  put_fails = false;
  expand_fails = false;
  text_fails = false;
  is_blank = false;
  classifier_fails = false;
  embed_fails = false;
  agent = λ r. ok bundle;
  list_pages = λ r. [];
  faults = record { write_fails = λ p. false; git_fails = λ c. false };
}

abbrev start : State
start = record { status = pending; repo = wiki }

run_test : ((run env 5 start).1 ≡ finished) × ((run env 5 start).0.status ≡ done)
unfolding run
run_test = (refl, refl)

run-IsJobEnd_example : IsJobEnd (run env 5 start)
run-IsJobEnd_example = run-IsJobEnd env 5 start tt (omega arith)

distill-IsGuarded_example :
    Leaves
      (IsGuarded env wiki)
      (IsGuarded env wiki)
      (distill env (record { status = classified; repo = wiki }))
distill-IsGuarded_example =
    distill-IsGuarded env wiki (record { status = classified; repo = wiki }) refl

-- A job that is queued again for a tainted source does nothing.
tainted_stays :
    run env 5 (record { status = tainted; repo = wiki })
    ≡ (record { status = tainted; repo = wiki }, finished)
unfolding run
tainted_stays = refl
