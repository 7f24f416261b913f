-- ===== src/Engine.antt =====
-- app/tasks_engine.py: the functions that move a task through its states. `Queue` puts tasks into
-- the queue and starts the worker; `Outcome` records how a run began and ended.
mod Queue
mod Outcome
unfoldable pub use Queue.*
unfoldable pub use Outcome.*
