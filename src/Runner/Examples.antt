-- ===== src/Runner/Examples.antt =====
-- Small schedules and runs of worker/emi_worker/runner.py.
use emi_analyzer.Base.{
  contains, ℕ, ◌≤◌, true, false, none, some, List, [], ◌∷◌, ◌≡◌, refl, length, max, Text, codes,
  to_lower,
}
use emi_analyzer.Scratch.{valid_run_id}
use emi_analyzer.Runner.Queue.{
  Run, Job, fresh, running, idle_workers, new_run, Event, pushed, polled, put_by, got, step, steps,
  accepts,
}
use emi_analyzer.Runner.Queue.Once.{IsOnce, in_hand-IsOnce}
use emi_analyzer.Runner.Queue.Threads.{held, running-le_max, polled_once}
use emi_analyzer.Runner.Exec.{
  stopped, server_error, returns, raises, done, failed, mint, claim, run_dir, run_stage, complete,
  remove_scratch,
}
use emi_analyzer.Runner.Execute.{Answers, execute}
use emi_analyzer.Runner.Execute.Ends.{
  reports, tally, is_remove, is_stage, is_lost, is_nil, is_orderly, from_stops, after, after_done,
  claimed_run_ends, finished_run_reported, unclaimed_run_untouched, stage_cleaned_up,
  unknown_kind_left,
}

abbrev run_id : Text
run_id = codes "0123456789abcdef0123456789abcdef"

abbrev kinds : List Text
kinds = codes "ingest" ∷ codes "solve" ∷ []

abbrev run : Run
run = record { id = some run_id; kind = some (codes "solve") }

abbrev job : Job
job = record { run_id = run_id; kind = codes "solve" }

accepts-run : accepts kinds run.id run.kind ≡ some job
unfolding accepts valid_run_id to_lower
accepts-run = refl

-- The same run arrives by push and by poll before a thread has put it into the queue.
abbrev race : List Event
race = pushed (new_run run) ∷ polled run ∷ put_by 0 ∷ got 0 ∷ polled run ∷ []

race_runs : running (steps kinds (fresh 1) race) ≡ job ∷ []
unfolding steps step idle_workers valid_run_id to_lower
race_runs = refl

in_hand-IsOnce_example : IsOnce run_id (steps kinds (fresh 1) race)
in_hand-IsOnce_example = in_hand-IsOnce kinds 1 race run_id

running-le_max_example :
    (length (steps kinds (fresh 1) race).workers ≡ max 1 1)
    × (length (running (steps kinds (fresh 1) race)) ≤ max 1 1)
running-le_max_example = running-le_max kinds 1 race

polled_once_example :
    (held run_id (step kinds (steps kinds (fresh 1) race) (polled run)) ≡ 1)
    × (held run_id (steps kinds (fresh 1) race) ≡ 1
        → step kinds (steps kinds (fresh 1) race) (polled run) ≡ steps kinds (fresh 1) race)
polled_once_example = polled_once kinds 1 race run job accepts-run

-- A stage that returns 7, and one that is stopped.
abbrev good : Answers ℕ
good = record {
  minted = returns tt;
  claimed = returns tt;
  run_dir_made = returns tt;
  stages = λ k. some (returns 7);
  done_posted = returns tt;
  failed_posted = returns tt;
}

abbrev halted : Answers ℕ
halted = record good { stages = λ k. some (raises stopped) }

abbrev unknown : Answers ℕ
unknown = record good { stages = λ k. none }

abbrev refused : Answers ℕ
refused = record good { claimed = raises (server_error (codes "500")) }

good_trace :
    (after good false job []).trace
    ≡ mint ∷ claim ∷ run_dir ∷ run_stage ∷ remove_scratch ∷ complete (done 7) ∷ []
unfolding execute
good_trace = refl

halted_trace :
    (after halted false job (run_id ∷ [])).trace
    ≡ mint
      ∷ claim
      ∷ run_dir
      ∷ run_stage
      ∷ complete (failed (codes "stopped on request"))
      ∷ remove_scratch
      ∷ []
unfolding execute
halted_trace = refl

claimed_run_ends_example :
    ((execute good false job (from_stops [])).0 ≡ returns tt)
    × (is_nil (reports (after good false job []).trace) ≡ is_lost good job)
    × (is_orderly (reports (after good false job []).trace) ≡ true)
claimed_run_ends_example = claimed_run_ends good false job [] refl refl

finished_run_reported_example :
    reports (after good false job []).trace ≡ done 7 ∷ after_done good.done_posted
finished_run_reported_example = finished_run_reported good false job [] 7 refl refl refl refl

unclaimed_run_untouched_example : (after refused false job []).trace ≡ mint ∷ claim ∷ []
unclaimed_run_untouched_example = unclaimed_run_untouched refused false job [] refl

stage_cleaned_up_example :
    (tally is_remove (after halted false job (run_id ∷ [])).trace
      ≡ tally is_stage (after halted false job (run_id ∷ [])).trace)
    × (tally is_stage (after halted false job (run_id ∷ [])).trace ≡ 1
        → contains (after halted false job (run_id ∷ [])).stop_requested run_id ≡ false)
stage_cleaned_up_example = stage_cleaned_up halted false job (run_id ∷ [])

unknown_kind_left_example :
    (tally is_remove (after unknown false job (run_id ∷ [])).trace ≡ 0)
    × ((after unknown false job (run_id ∷ [])).stop_requested ≡ run_id ∷ [])
unknown_kind_left_example = unknown_kind_left unknown false job (run_id ∷ []) refl refl refl refl
