-- ===== src/Ingest/Runner/Tests.antt =====
-- The worker's loop at concrete inputs: an ingest job whose handler always fails.
use qpedia.Prelude.{◌≡◌, refl, none, List, [], ◌∷◌, ok, err, arith}
use qpedia.Text.{Text, codes}
use qpedia.PgStore.Jobs.{Table}
use qpedia.PgStore.Jobs.Keys.{IsValid}
use qpedia.Ingest.Runner.{Handlers, handler_failed, ingest_job, round}
use qpedia.Ingest.Runner.Rounds.{IsRound, round-IsRound}

-- The world is the list of the sources that are marked as failed.
abbrev handlers : Handlers (List Text)
handlers = record {
  run_ingest = λ tenant id w. (w, err (handler_failed (codes "boom")));
  run_remove = λ tenant id w. (w, ok tt);
  run_lint = λ tenant w. (w, ok tt);
  run_reembed = λ tenant w. (w, ok tt);
  run_sync = λ tenant id w. (w, ok tt);
  mark_failed = λ tenant id msg w. id ∷ w;
  render = λ e. codes "boom";
}

table : Table
unfolding ingest_job
table = record {
  next_id = 2;
  rows =
      record {
        id = 1;
        tenant = codes "acme";
        job = record (ingest_job (codes "acme") (codes "7") 100) { attempt = 4 };
        locked_by = none;
        locked_until = none;
      }
      ∷ [];
}

table-IsValid : IsValid table
unfolding table
table-IsValid = omega arith

round_test : (round handlers (codes "w1") 150 200 table []).1 ≡ codes "7" ∷ []
unfolding round table
round_test = refl

round-IsRound_example :
    IsRound handlers 150 200 table [] (round handlers (codes "w1") 150 200 table [])
round-IsRound_example = round-IsRound handlers (codes "w1") 150 200 table [] table-IsValid
