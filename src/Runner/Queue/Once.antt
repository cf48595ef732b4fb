-- ===== src/Runner/Queue/Once.antt =====
-- No run is in hand twice, however the threads of worker/emi_worker/runner.py interleave.
use emi_analyzer.Base.{
  count, contains-count, ℕ, zero, suc, ◌+◌, ◌≤◌, Option, none, some, List, [], ◌∷◌, ◌++◌, ◌≡◌, refl,
  ap, max, arith, length, if◌then◌else◌, Text, text_eq, text_eq_iff,
}
use emi_analyzer.Runner.Queue.{
  Job, Worker, Shared, busy, running, idle_workers, behind, start_at, started, ended_behind, end_at,
  fresh, new_run, stop_run, other_message, discard, accepts, mark, taken, get, put_taken,
  start_first, end_taken, request_stop, Event, pushed, polled, put_by, got, ended, step, steps,
}

-- How many jobs have an id.
abbrev pub jobs_of : Text → List Job → ℕ
jobs_of x [] = 0
jobs_of x (j ∷ js) = if text_eq j.run_id x then suc (jobs_of x js) else jobs_of x js

jobs_of-append : (x : Text) (a b : List Job) → jobs_of x (a ++ b) ≡ jobs_of x a + jobs_of x b
jobs_of-append x [] b = omega arith
jobs_of-append x (j ∷ a) b = ground (arith, jobs_of-append x a b)

count-discard :
    (x y : Text) (s : List Text) → count x (discard y s) ≡ (if text_eq y x then 0 else count x s)
count-discard x y [] = ground arith
count-discard x y (z ∷ s) =
    ground (arith, count-discard x y s, text_eq_iff z y, text_eq_iff y x, text_eq_iff z x)

-- What is left after one is taken.
abbrev pub Leaves : Text → List Job → Option (Job × List Job) → Type 0
Leaves x l none = Unit
Leaves x l (some (j, rest)) =
    (jobs_of x l ≡ jobs_of x rest + (if text_eq j.run_id x then 1 else 0))
    × (length l ≡ suc (length rest))

abbrev keep_first : Job → Option (Job × List Job) → Option (Job × List Job)
keep_first k none = none
keep_first k (some (j, rest)) = some (j, k ∷ rest)

Leaves-keep_first :
    (x : Text) (k : Job) (l : List Job) (o : Option (Job × List Job))
    → Leaves x l o
    → Leaves x (k ∷ l) (keep_first k o)
Leaves-keep_first x k l none h = tt
Leaves-keep_first x k l (some (j, rest)) h = ground arith

pub Leaves-taken : (x : Text) (i : ℕ) (l : List Job) → Leaves x l (taken i l)
Leaves-taken x i [] = tt
Leaves-taken x zero (k ∷ l) = ground arith
Leaves-taken x (suc i) (k ∷ l) = Leaves-keep_first x k l (taken i l) (Leaves-taken x i l)

-- What a thread does to the runs in hand, when it takes one and when it ends one.
abbrev pub Starts : Text → Job → List Worker → Option (List Worker) → Type 0
Starts x job ws none = Unit
Starts x job ws (some ws') =
    (jobs_of x (busy ws') ≡ jobs_of x (busy ws) + (if text_eq job.run_id x then 1 else 0))
    × (length ws' ≡ length ws)

abbrev pub Stops : Text → List Worker → Option (Job × List Worker) → Type 0
Stops x ws none = Unit
Stops x ws (some (job, ws')) =
    (jobs_of x (busy ws) ≡ jobs_of x (busy ws') + (if text_eq job.run_id x then 1 else 0))
    × (length ws' ≡ length ws)

Starts-behind :
    (x : Text) (job : Job) (w : Worker) (ws : List Worker) (o : Option (List Worker))
    → Starts x job ws o
    → Starts x job (w ∷ ws) (behind w o)
Starts-behind x job w ws none h = tt
Starts-behind x job none ws (some ws') h = ground arith
Starts-behind x job (some j) ws (some ws') h = ground arith

Stops-ended_behind :
    (x : Text) (w : Worker) (ws : List Worker) (o : Option (Job × List Worker))
    → Stops x ws o
    → Stops x (w ∷ ws) (ended_behind w o)
Stops-ended_behind x w ws none h = tt
Stops-ended_behind x none ws (some (job, ws')) h = ground arith
Stops-ended_behind x (some j) ws (some (job, ws')) h = ground arith

pub Starts-start_at :
    (x : Text) (i : ℕ) (job : Job) (ws : List Worker) → Starts x job ws (start_at i job ws)
Starts-start_at x i job [] = tt
Starts-start_at x zero job (none ∷ ws) = ground arith
Starts-start_at x zero job (some j ∷ ws) = tt
Starts-start_at x (suc i) job (w ∷ ws) =
    Starts-behind x job w ws (start_at i job ws) (Starts-start_at x i job ws)

pub Stops-end_at : (x : Text) (i : ℕ) (ws : List Worker) → Stops x ws (end_at i ws)
Stops-end_at x i [] = tt
Stops-end_at x zero (none ∷ ws) = tt
Stops-end_at x zero (some job ∷ ws) = ground arith
Stops-end_at x (suc i) (w ∷ ws) = Stops-ended_behind x w ws (end_at i ws) (Stops-end_at x i ws)

-- Each id is seen exactly as often as it is in hand, and at most once.
pub record IsOnce (x : Text) (s : Shared) : Type 0 where
  pub counted : count x s.seen ≡ jobs_of x s.admitted + jobs_of x s.queue + jobs_of x (running s)
  pub once : count x s.seen ≤ 1

module _ (x : Text) where
  IsOnce-mark : (o : Option Job) {s : Shared} → IsOnce x s → IsOnce x (mark o s)
  unfolding mark
  IsOnce-mark none h = h
  IsOnce-mark (some job) {s} h =
      ground (arith, contains-count job.run_id s.seen, text_eq_iff job.run_id x)

  IsOnce-put_taken :
      (o : Option (Job × List Job)) {s : Shared}
      → Leaves x s.admitted o
      → IsOnce x s
      → IsOnce x (put_taken s o)
  IsOnce-put_taken none l h = h
  IsOnce-put_taken (some (job, rest)) {s} l h = ground (arith, jobs_of-append x s.queue (job ∷ []))

  IsOnce-started :
      (job : Job) (rest : List Job) (o : Option (List Worker)) {s : Shared}
      → s.queue ≡ job ∷ rest
      → Starts x job s.workers o
      → IsOnce x s
      → IsOnce x (started s rest o)
  IsOnce-started job rest none e w h = h
  IsOnce-started job rest (some ws) {s} e w h = ground (arith, ap (jobs_of x) e)

  IsOnce-start_first :
      (i : ℕ) (q : List Job) {s : Shared} → s.queue ≡ q → IsOnce x s → IsOnce x (start_first i s q)
  IsOnce-start_first i [] e h = h
  IsOnce-start_first i (job ∷ rest) {s} e h =
      IsOnce-started job rest (start_at i job s.workers) e (Starts-start_at x i job s.workers) h

  IsOnce-end_taken :
      (o : Option (Job × List Worker)) {s : Shared}
      → Stops x s.workers o
      → IsOnce x s
      → IsOnce x (end_taken s o)
  IsOnce-end_taken none l h = h
  IsOnce-end_taken (some (job, rest)) {s} l h = ground (arith, count-discard x job.run_id s.seen)

  IsOnce-request_stop : (o : Option Text) {s : Shared} → IsOnce x s → IsOnce x (request_stop o s)
  IsOnce-request_stop none h = h
  IsOnce-request_stop (some []) h = h
  IsOnce-request_stop (some (c ∷ t)) h = record { counted = h.counted; once = h.once }

  module _ (kinds : List Text) where
    IsOnce-step : (s : Shared) (e : Event) → IsOnce x s → IsOnce x (step kinds s e)
    unfolding step get
    IsOnce-step s (pushed (new_run run)) h = IsOnce-mark (accepts kinds run.id run.kind) h
    IsOnce-step s (pushed (stop_run o)) h = IsOnce-request_stop o h
    IsOnce-step s (pushed other_message) h = h
    IsOnce-step s (polled run) h = IsOnce-mark (accepts kinds run.id run.kind) h
    IsOnce-step s (put_by i) h =
        IsOnce-put_taken (taken i s.admitted) (Leaves-taken x i s.admitted) h
    IsOnce-step s (got i) h = IsOnce-start_first i s.queue refl h
    IsOnce-step s (ended i) h = IsOnce-end_taken (end_at i s.workers) (Stops-end_at x i s.workers) h

    IsOnce-steps : (s : Shared) (es : List Event) → IsOnce x s → IsOnce x (steps kinds s es)
    unfolding steps
    IsOnce-steps s [] h = h
    IsOnce-steps s (e ∷ es) h = IsOnce-steps (step kinds s e) es (IsOnce-step s e h)

jobs_of-idle_workers : (x : Text) (n : ℕ) → jobs_of x (busy (idle_workers n)) ≡ 0
unfolding idle_workers
jobs_of-idle_workers x zero = refl
jobs_of-idle_workers x (suc n) = jobs_of-idle_workers x n

IsOnce-fresh : (x : Text) (n : ℕ) → IsOnce x (fresh n)
IsOnce-fresh x n = record {
  counted = omega (arith, jobs_of-idle_workers x (max 1 n));
  once = omega arith;
}

-- Whatever messages arrive and however the threads take turns, a run id is in hand at most once,
-- waiting or running, and it is in the set of seen ids exactly while it is in hand.
pub in_hand-IsOnce :
    (kinds : List Text) (max_concurrent : ℕ) (events : List Event) (x : Text)
    → IsOnce x (steps kinds (fresh max_concurrent) events)
in_hand-IsOnce kinds n events x = IsOnce-steps x kinds (fresh n) events (IsOnce-fresh x n)
