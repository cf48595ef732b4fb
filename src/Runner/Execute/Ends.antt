-- ===== src/Runner/Execute/Ends.antt =====
-- How a run ends in worker/emi_worker/runner.py.
use emi_analyzer.Base.{
  contains, ℕ, suc, ◌||◌, ◌&&◌, Bool, true, false, Option, none, some, List, [], ◌∷◌, ◌≡◌, refl,
  arith, if◌then◌else◌, Text,
}
use emi_analyzer.Runner.Queue.{Job, discard}
use emi_analyzer.Runner.Exec.{
  reassigned, server_error, Outcome, returns, raises, Report, done, failed, Action, mint, claim,
  run_stage, remove_scratch, complete, Worker,
}
use emi_analyzer.Runner.Execute.{Answers, execute, user_error}

-- The calls of `complete`, in order.
abbrev pub reports : {R : Type 0} → List (Action R) → List (Report R)
reports [] = []
reports (complete r ∷ rest) = r ∷ reports rest
reports (_ ∷ rest) = reports rest

abbrev pub is_remove : {R : Type 0} → Action R → Bool
is_remove remove_scratch = true
is_remove _ = false

abbrev pub is_stage : {R : Type 0} → Action R → Bool
is_stage run_stage = true
is_stage _ = false

abbrev pub tally : {R : Type 0} → (Action R → Bool) → List (Action R) → ℕ
tally p [] = 0
tally p (x ∷ rest) = if p x then suc (tally p rest) else tally p rest

abbrev pub is_reassigned : {A : Type 0} → Outcome A → Bool
is_reassigned (raises (reassigned _)) = true
is_reassigned _ = false

abbrev pub is_returned : {A : Type 0} → Outcome A → Bool
is_returned (returns _) = true
is_returned _ = false

-- The server answered, when the directory was made or while the stage ran, that another worker has
-- the run.
abbrev pub stage_reassigned : {R : Type 0} → Option (Outcome R) → Bool
stage_reassigned none = false
stage_reassigned (some o) = is_reassigned o

abbrev pub is_lost : {R : Type 0} → Answers R → Job → Bool
is_lost a job =
    is_reassigned a.run_dir_made
    || (is_returned a.run_dir_made && stage_reassigned (a.stages job.kind))

abbrev pub is_nil {ℓ} : {A : Type ℓ} → List A → Bool
is_nil [] = true
is_nil (x ∷ xs) = false

-- At most one `done`, then at most one `failed`.
abbrev pub is_orderly : {R : Type 0} → List (Report R) → Bool
is_orderly [] = true
is_orderly (done r ∷ []) = true
is_orderly (failed m ∷ []) = true
is_orderly (done r ∷ failed m ∷ []) = true
is_orderly _ = false

abbrev pub after_done : {R : Type 0} → Outcome (Unit {0}) → List (Report R)
after_done (returns _) = []
after_done (raises (reassigned _)) = []
after_done (raises (server_error _)) = []
after_done (raises e) = failed (user_error e) ∷ []

contains-discard : (x : Text) (l : List Text) → contains (discard x l) x ≡ false
contains-discard x [] = refl
contains-discard x (y ∷ l) = ground (arith, contains-discard x l)

abbrev pub from_stops : {R : Type 0} → List Text → Worker R
from_stops stops = record { stop_requested = stops; trace = [] }

module _ {R : Type 0} (a : Answers R) (keep_scratch : Bool) (job : Job) (stops : List Text) where
  abbrev pub after : Worker R
  after = (execute a keep_scratch job (from_stops stops)).1

  -- Once the run's token is minted and the run claimed, `_execute` raises nothing, whatever the stage,
  -- the disk and the server do then; it reports the run's end to the server, and reports nothing
  -- exactly if the server said that another worker has the run; and the reports are at most one
  -- `done` and at most one `failed`, in that order.
  pub claimed_run_ends :
      a.minted ≡ returns tt
      → a.claimed ≡ returns tt
      → ((execute a keep_scratch job (from_stops stops)).0 ≡ returns tt)
        × (is_nil (reports after.trace) ≡ is_lost a job)
        × (is_orderly (reports after.trace) ≡ true)
  unfolding execute
  claimed_run_ends m c = (ground arith, ground arith, ground arith)

  -- A stage's result is reported as done with that result, and a failure is reported after it exactly
  -- if the report raised an exception that is no answer of the server.
  pub finished_run_reported :
      (r : R)
      → a.minted ≡ returns tt
      → a.claimed ≡ returns tt
      → a.run_dir_made ≡ returns tt
      → a.stages job.kind ≡ some (returns r)
      → reports after.trace ≡ done r ∷ after_done a.done_posted
  unfolding execute
  finished_run_reported r m c d k = ground arith

  -- A run whose token is refused or that cannot be claimed is not touched: no directory is made, no
  -- stage is run, nothing is reported.
  pub unclaimed_run_untouched :
      is_returned a.minted && is_returned a.claimed ≡ false
      → after.trace ≡ (if is_returned a.minted then mint ∷ claim ∷ [] else mint ∷ [])
  unfolding execute
  unclaimed_run_untouched h = ground arith

  -- However the run ends, a stage that was started has its directory removed, once, unless the
  -- worker keeps them, and the run's stop request is forgotten.
  pub stage_cleaned_up :
      (tally is_remove after.trace ≡ (if keep_scratch then 0 else tally is_stage after.trace))
      × (tally is_stage after.trace ≡ 1 → contains after.stop_requested job.run_id ≡ false)
  unfolding execute
  stage_cleaned_up = (ground arith, λ h. ground (arith, contains-discard job.run_id stops))

  -- A run of a kind with no stage leaves its directory behind and its stop request standing.
  pub unknown_kind_left :
      a.minted ≡ returns tt
      → a.claimed ≡ returns tt
      → a.run_dir_made ≡ returns tt
      → a.stages job.kind ≡ none
      → (tally is_remove after.trace ≡ 0) × (after.stop_requested ≡ stops)
  unfolding execute
  unknown_kind_left m c d k = (ground arith, ground arith)
