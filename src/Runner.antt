-- ===== src/Runner.antt =====
-- worker/emi_worker/runner.py: the worker's run loop. `Queue` is what the threads share (`_enqueue`,
-- the queue and the set of seen ids), and `Execute` is what a work thread does with one run.
pub mod Queue
pub mod Exec
pub mod Execute
mod Examples
