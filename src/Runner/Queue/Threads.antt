-- ===== src/Runner/Queue/Threads.antt =====
-- How many runs the work threads of worker/emi_worker/runner.py have, and which runs get in.
use emi_analyzer.Base.{
  contains, contains-count, contains_pos, ℕ, ◌+◌, ◌≤◌, Option, none, some, List, [], ◌∷◌, ◌≡◌, refl,
  ap, ◌∙◌, zero, suc, max, arith, length, Text, text_eq_iff, Bool-cases, inl, inr,
}
use emi_analyzer.Runner.Queue.{
  Run, Job, Worker, Shared, busy, running, idle_workers, start_at, started, end_at, put_taken,
  fresh, new_run, stop_run, other_message, accepts, mark, get, start_first, taken, end_taken, Event,
  pushed, polled, put_by, got, ended, step, steps,
}
use emi_analyzer.Runner.Queue.Once.{
  jobs_of, Starts, Starts-start_at, Stops, Stops-end_at, IsOnce, in_hand-IsOnce,
}

-- The work threads of a state are as many as those that were started.
abbrev Keeps : ℕ → Shared → Type 0
Keeps n s = length s.workers ≡ n

length-idle_workers : (n : ℕ) → length (idle_workers n) ≡ n
unfolding idle_workers
length-idle_workers zero = refl
length-idle_workers (suc n) = omega (arith, length-idle_workers n)

length-busy : (ws : List Worker) → length (busy ws) ≤ length ws
length-busy [] = omega arith
length-busy (none ∷ ws) = omega (arith, length-busy ws)
length-busy (some job ∷ ws) = omega (arith, length-busy ws)

workers-mark : (o : Option Job) (s : Shared) → (mark o s).workers ≡ s.workers
unfolding mark
workers-mark none s = refl
workers-mark (some job) s = ground arith

workers-put_taken : (o : Option (Job × List Job)) (s : Shared) → (put_taken s o).workers ≡ s.workers
workers-put_taken none s = refl
workers-put_taken (some (job, rest)) s = refl

Keeps-started :
    (n : ℕ) (job : Job) (rest : List Job) (o : Option (List Worker)) (s : Shared)
    → Starts [] job s.workers o
    → Keeps n s
    → Keeps n (started s rest o)
Keeps-started n job rest none s w h = h
Keeps-started n job rest (some ws) s w h = omega arith

Keeps-start_first : (n i : ℕ) (q : List Job) (s : Shared) → Keeps n s → Keeps n (start_first i s q)
Keeps-start_first n i [] s h = h
Keeps-start_first n i (job ∷ rest) s h =
    Keeps-started n job rest (start_at i job s.workers) s (Starts-start_at [] i job s.workers) h

Keeps-end_taken :
    (n : ℕ) (o : Option (Job × List Worker)) (s : Shared)
    → Stops [] s.workers o
    → Keeps n s
    → Keeps n (end_taken s o)
Keeps-end_taken n none s w h = h
Keeps-end_taken n (some (job, ws)) s w h = omega arith

Keeps-step :
    (kinds : List Text) (n : ℕ) (s : Shared) (e : Event) → Keeps n s → Keeps n (step kinds s e)
unfolding step get
Keeps-step kinds n s (pushed (new_run run)) h =
    ap length (workers-mark (accepts kinds run.id run.kind) s) ∙ h
Keeps-step kinds n s (pushed (stop_run none)) h = h
Keeps-step kinds n s (pushed (stop_run (some []))) h = h
Keeps-step kinds n s (pushed (stop_run (some (c ∷ t)))) h = h
Keeps-step kinds n s (pushed other_message) h = h
Keeps-step kinds n s (polled run) h = ap length (workers-mark (accepts kinds run.id run.kind) s) ∙ h
Keeps-step kinds n s (put_by i) h = ap length (workers-put_taken (taken i s.admitted) s) ∙ h
Keeps-step kinds n s (got i) h = Keeps-start_first n i s.queue s h
Keeps-step kinds n s (ended i) h =
    Keeps-end_taken n (end_at i s.workers) s (Stops-end_at [] i s.workers) h

Keeps-steps :
    (kinds : List Text) (n : ℕ) (s : Shared) (es : List Event)
    → Keeps n s
    → Keeps n (steps kinds s es)
unfolding steps
Keeps-steps kinds n s [] h = h
Keeps-steps kinds n s (e ∷ es) h =
    Keeps-steps kinds n (step kinds s e) es (Keeps-step kinds n s e h)

-- `run` starts `max(1, max_concurrent)` work threads, they stay that many after every sequence of events,
-- and so no more runs than that are worked on at once.
pub running-le_max :
    (kinds : List Text) (max_concurrent : ℕ) (events : List Event)
    → let s = steps kinds (fresh max_concurrent) events in
      (length s.workers ≡ max 1 max_concurrent) × (length (running s) ≤ max 1 max_concurrent)
running-le_max kinds n events =
    let s = steps kinds (fresh n) events in
    let kept = Keeps-steps kinds (max 1 n) (fresh n) events (length-idle_workers (max 1 n)) in
    (kept, omega (arith, kept, length-busy s.workers))

-- How often a run is in hand.
abbrev pub held : Text → Shared → ℕ
held x s = jobs_of x s.admitted + jobs_of x s.queue + jobs_of x (running s)

held-mark :
    (job : Job) (s : Shared)
    → IsOnce job.run_id s
    → (held job.run_id (mark (some job) s) ≡ 1) × (held job.run_id s ≡ 1 → mark (some job) s ≡ s)
unfolding mark
held-mark job s h = elim (Bool-cases (contains s.seen job.run_id)) [
  | inl old ↦ rw old (omega (arith, contains_pos job.run_id s.seen old), λ e. refl)
  | inr new ↦ rw new (
    ground (arith, contains-count job.run_id s.seen, text_eq_iff job.run_id job.run_id),
    λ e. absurd (omega (arith, contains-count job.run_id s.seen new)),
  )
]

-- In every reachable state, a run that `_enqueue` accepts is in hand once after it arrives, and one
-- that was in hand before it arrived leaves the state unchanged: de-duplication loses no run.
pub polled_once :
    (kinds : List Text) (max_concurrent : ℕ) (events : List Event) (run : Run) (job : Job)
    → accepts kinds run.id run.kind ≡ some job
    → let s = steps kinds (fresh max_concurrent) events in
      (held job.run_id (step kinds s (polled run)) ≡ 1)
      × (held job.run_id s ≡ 1 → step kinds s (polled run) ≡ s)
unfolding step
polled_once kinds n events run job e =
    rw e (held-mark job (steps kinds (fresh n) events) (in_hand-IsOnce kinds n events job.run_id))
