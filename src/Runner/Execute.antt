-- ===== src/Runner/Execute.antt =====
-- `_execute`, `_run_claimed` and `_fail` of worker/emi_worker/runner.py.
pub mod Ends
use emi_analyzer.Base.{
  Bool, true, false, Option, none, some, List, [], ◌∷◌, ◌++◌, if◌then◌else◌, Text, codes,
}
use emi_analyzer.Runner.Queue.{Job, discard}
use emi_analyzer.Runner.Exec.{
  Raised, reassigned, server_error, stage_error, stopped, no_space, other, Outcome, returns, raises,
  Report, done, failed, Action, mint, claim, run_dir, run_stage, remove_scratch, complete, Worker,
  Exec, log, call, pure, throw, ◌>>=◌, ◌>>◌, try_except, try_finally,
}

-- What the server, the disk and the stages answer during one `_execute`. Each call is made at most
-- once. `stages` is the dispatch table `STAGES`, with what each stage returns or raises.
pub record Answers (R : Type 0) : Type 0 where
  pub minted : Outcome (Unit {0})
  pub claimed : Outcome (Unit {0})
  pub run_dir_made : Outcome (Unit {0})
  pub stages : Text → Option (Outcome R)
  pub done_posted : Outcome (Unit {0})
  pub failed_posted : Outcome (Unit {0})

abbrev or_name : Text → Text → Text
or_name [] name = name
or_name (c ∷ t) name = c ∷ t

-- `str(exc) or type(exc).__name__`
abbrev describe : Raised → Text
describe (reassigned t) = or_name t (codes "RunReassigned")
describe (server_error t) = or_name t (codes "ServerError")
describe (stage_error t) = or_name t (codes "StageError")
describe stopped = codes "Stopped"
describe no_space = codes "OSError"
describe (other name t) = or_name t name

unfoldable pub user_error : Raised → Text
user_error no_space = codes "the worker ran out of disk space"
user_error e = codes "internal worker error: " ++ describe e

module _ {R : Type 0} (answers : Answers R) (keep_scratch : Bool) where
  -- `_fail`: best effort, no exception gets out.
  unfoldable pub fail : Text → Exec R (Unit {0})
  fail message = try_except (call (complete (failed message)) answers.failed_posted) (λ _. pure tt)

  -- The handlers round the stage; none where `_run_claimed` returns early.
  abbrev on_raise : Raised → Exec R (Option R)
  on_raise stopped = do fail (codes "stopped on request"); pure none
  on_raise (stage_error message) = do fail message; pure none
  on_raise (reassigned _) = pure none
  on_raise e = do fail (user_error e); pure none

  -- The `finally`: the stop request is forgotten and `_drop_scratch` runs.
  abbrev clean_up : Text → Worker R → Worker R
  clean_up run_id w =
      let w' = record w { stop_requested = discard run_id w.stop_requested } in
      if keep_scratch then w' else log w' remove_scratch

  abbrev on_report : Raised → Exec R (Unit {0})
  on_report (server_error _) = pure tt
  on_report (reassigned _) = pure tt
  on_report e = throw e

  abbrev post_done : Option R → Exec R (Unit {0})
  post_done none = pure tt
  post_done (some result) = try_except (call (complete (done result)) answers.done_posted) on_report

  abbrev run_with : Job → Option (Outcome R) → Exec R (Unit {0})
  run_with job none = fail (codes "worker does not implement run kind '" ++ (job.kind ++ 39 ∷ []))
  run_with job (some outcome) = do
    result ←
        try_finally (try_except (do r ← call run_stage outcome; pure (some r)) on_raise)
          (clean_up job.run_id)
    post_done result

  unfoldable pub run_claimed : Job → Exec R (Unit {0})
  unfolding fail user_error
  run_claimed job = do call run_dir answers.run_dir_made; run_with job (answers.stages job.kind)

  abbrev on_claimed : Raised → Exec R (Unit {0})
  on_claimed (reassigned _) = pure tt
  on_claimed e = fail (user_error e)

  -- What is answered before the run is this worker's; false where `_execute` returns.
  abbrev on_mint : Raised → Exec R Bool
  on_mint (reassigned _) = pure false
  on_mint (server_error _) = pure false
  on_mint e = throw e

  abbrev on_claim : Raised → Exec R Bool
  on_claim (reassigned _) = pure false
  on_claim e = throw e

  abbrev when : Bool → Exec R (Unit {0}) → Exec R (Unit {0})
  when true m = m
  when false m = pure tt

  unfoldable pub execute : Job → Exec R (Unit {0})
  unfolding run_claimed
  execute job = do
    minted ← try_except (do call mint answers.minted; pure true) on_mint
    when minted (do
      claimed ← try_except (do call claim answers.claimed; pure true) on_claim
      when claimed (try_except (run_claimed job) on_claimed))
