-- ===== src/Runner/Queue.antt =====
-- What the threads of worker/emi_worker/runner.py share: `_seen`, `_queue` and the run of each work thread, and
-- the atomic steps that the push, poll and work threads make on them.
pub mod Once
pub mod Threads
use emi_analyzer.Base.{
  contains, ℕ, zero, suc, Bool, true, false, not, ◌||◌, Option, none, some, List, [], ◌∷◌, ◌++◌,
  length, max, ltb, if◌then◌else◌, Text, text_eq,
}
use emi_analyzer.Scratch.{valid_run_id}

-- `run.get("id")` and `run.get("kind")` of a run dictionary; none where it is no text.
pub record Run : Type 0 where
  pub id : Option Text
  pub kind : Option Text

-- `_Job`, without the payload, which only the stage reads.
pub record Job : Type 0 where
  pub run_id : Text
  pub kind : Text

-- The parsed messages of `_on_ws_message`.
pub data Message : Type 0 where
  new_run : Run → Message
  stop_run : Option Text → Message
  other_message : Message

-- A work thread: none while it waits in `_queue.get`, else the run that it executes.
abbrev pub Worker : Type 0
Worker = Option Job

-- `admitted` are the runs that are marked as seen and not yet put into the queue.
pub record Shared : Type 0 where
  pub seen : List Text
  pub admitted : List Job
  pub queue : List Job
  pub workers : List Worker
  pub stop_requested : List Text

-- The runs that work threads have taken.
abbrev pub busy : List Worker → List Job
busy [] = []
busy (none ∷ ws) = busy ws
busy (some job ∷ ws) = job ∷ busy ws

abbrev pub running : Shared → List Job
running s = busy s.workers

-- `[threading.Thread(target=self._work_loop, ...) for i in range(n)]`
unfoldable pub idle_workers : ℕ → List Worker
idle_workers zero = []
idle_workers (suc n) = none ∷ idle_workers n

-- The state when `run` has started its threads.
abbrev pub fresh : ℕ → Shared
fresh max_concurrent = record {
  seen = [];
  admitted = [];
  queue = [];
  workers = idle_workers (max 1 max_concurrent);
  stop_requested = [];
}

-- `set.add` and `set.discard`
abbrev pub add : Text → List Text → List Text
add x s = if contains s x then s else x ∷ s

abbrev pub discard : Text → List Text → List Text
discard x [] = []
discard x (y ∷ ys) = let rest = discard x ys in if text_eq y x then rest else y ∷ rest

abbrev is_blank_text : Text → Bool
is_blank_text [] = true
is_blank_text (c ∷ t) = false

-- The tests of `_enqueue` before it takes the lock.
unfoldable pub accepts : List Text → Option Text → Option Text → Option Job
accepts kinds none kind = none
accepts kinds (some id) none = none
accepts kinds (some id) (some kind) =
    if is_blank_text id || is_blank_text kind
    then none
    else if not (valid_run_id id)
    then none
    else if not (contains kinds kind)
    then none
    else some (record { run_id = id; kind = kind })

-- The locked part of `_enqueue`.
unfoldable pub mark : Option Job → Shared → Shared
mark none s = s
mark (some job) s =
    if contains s.seen job.run_id
    then s
    else record s { seen = job.run_id ∷ s.seen; admitted = job ∷ s.admitted }

abbrev pub taken {ℓ} : {A : Type ℓ} → ℕ → List A → Option (A × List A)
taken i [] = none
taken zero (x ∷ xs) = some (x, xs)
taken (suc i) (x ∷ xs) = elim (taken i xs) [ none ↦ none | some (y, ys) ↦ some (y, x ∷ ys) ]

abbrev pub put_taken : Shared → Option (Job × List Job) → Shared
put_taken s none = s
put_taken s (some (job, rest)) = record s { admitted = rest; queue = s.queue ++ job ∷ [] }

-- `self._queue.put(...)`, by one of the threads that wait to make it.
unfoldable pub put : ℕ → Shared → Shared
put i s = put_taken s (taken i s.admitted)

abbrev pub behind : Worker → Option (List Worker) → Option (List Worker)
behind w none = none
behind w (some ws) = some (w ∷ ws)

-- Thread `i` takes a job, if there is such a thread and it waits.
abbrev pub start_at : ℕ → Job → List Worker → Option (List Worker)
start_at i job [] = none
start_at zero job (none ∷ ws) = some (some job ∷ ws)
start_at zero job (some j ∷ ws) = none
start_at (suc i) job (w ∷ ws) = behind w (start_at i job ws)

abbrev pub started : Shared → List Job → Option (List Worker) → Shared
started s rest none = s
started s rest (some ws) = record s { queue = rest; workers = ws }

abbrev pub start_first : ℕ → Shared → List Job → Shared
start_first i s [] = s
start_first i s (job ∷ rest) = started s rest (start_at i job s.workers)

-- `self._queue.get(...)` of thread `i`
unfoldable pub get : ℕ → Shared → Shared
get i s = start_first i s s.queue

abbrev pub ended_behind : Worker → Option (Job × List Worker) → Option (Job × List Worker)
ended_behind w none = none
ended_behind w (some (job, ws)) = some (job, w ∷ ws)

-- Thread `i` is done with its run and waits again.
abbrev pub end_at : ℕ → List Worker → Option (Job × List Worker)
end_at i [] = none
end_at zero (none ∷ ws) = none
end_at zero (some job ∷ ws) = some (job, none ∷ ws)
end_at (suc i) (w ∷ ws) = ended_behind w (end_at i ws)

abbrev pub end_taken : Shared → Option (Job × List Worker) → Shared
end_taken s none = s
end_taken s (some (job, ws)) = record s { workers = ws; seen = discard job.run_id s.seen }

-- The `finally` of `_work_loop` in thread `i`, when its `_execute` returned or raised.
unfoldable pub end_run : ℕ → Shared → Shared
end_run i s = end_taken s (end_at i s.workers)

abbrev pub request_stop : Option Text → Shared → Shared
request_stop none s = s
request_stop (some []) s = s
request_stop (some (c ∷ t)) s = record s { stop_requested = add (c ∷ t) s.stop_requested }

-- `_on_ws_message`, up to the put.
unfoldable pub on_ws_message : List Text → Message → Shared → Shared
unfolding accepts mark
on_ws_message kinds (new_run run) s = mark (accepts kinds run.id run.kind) s
on_ws_message kinds (stop_run run_id) s = request_stop run_id s
on_ws_message kinds other_message s = s

-- What may happen next, in any order: a pushed message, a polled run, a put, a thread's get, a run's end.
pub data Event : Type 0 where
  pushed : Message → Event
  polled : Run → Event
  put_by : ℕ → Event
  got : ℕ → Event
  ended : ℕ → Event

module _ (kinds : List Text) where
  unfoldable pub step : Shared → Event → Shared
  unfolding on_ws_message accepts mark put get end_run
  step s (pushed m) = on_ws_message kinds m s
  step s (polled run) = mark (accepts kinds run.id run.kind) s
  step s (put_by i) = put i s
  step s (got i) = get i s
  step s (ended i) = end_run i s

  unfoldable pub steps : Shared → List Event → Shared
  steps s [] = s
  steps s (e ∷ es) = steps (step s e) es
