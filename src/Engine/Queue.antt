-- ===== src/Engine/Queue.antt =====
-- app/tasks_engine.py: the master switch, the queue of tasks, the start of the worker, and the
-- watchdog. Logging is left out.
use vodum.Common.{
  ℕ, ◌+◌, Bool, true, false, not, ◌&&◌, ◌||◌, Option, none, some, String, ltb, ◌==◌, find_row,
  count_rows, if◌then◌else◌,
}
use vodum.Tasks.{Task, Status, is_running, has_id, has_name, Error, thread_error, message}
use vodum.State.{
  Db, Action, pure, raise, gets, ◌>>=◌, ◌>>◌, try_except, request, query, update_tasks,
  update_tasks_when,
}
use vodum.Signals.{claim, release, is_claimed}
use vodum.Config.{enabled_status}

-- The value of the column, or True where the row or the value is missing.
abbrev pub cron_setting : Db → Bool
cron_setting db = elim db.settings [
  | none ↦ true
  | some s ↦ elim s.enable_cron_jobs [ none ↦ true | some n ↦ n == 1 ]
]

unfoldable pub cron_jobs_enabled : Action Bool
cron_jobs_enabled = try_except (query cron_setting) (λ _. pure true)

-- The start of the thread may raise; then the lease is given back.
unfoldable pub start_task_worker : Action Bool
start_task_worker = do
  free ← claim
  if free
      then try_except (request thread_error) (λ e. release >> raise e) >> pure true
      else pure false

abbrev pub enqueue_row : ℕ → Task → Task
enqueue_row now t = record t {
  queued_count = if ltb 0 t.queued_count then t.queued_count else 1;
  status = if is_running t.status then Status.running else Status.queued;
  updated_at = now;
}

abbrev pub is_enabled : Option Task → Bool
is_enabled none = false
is_enabled (some t) = t.enabled

unfoldable pub enqueue_task : ℕ → Action Bool
enqueue_task i = do
  cron ← cron_jobs_enabled
  if not cron then pure false else do
    row ← query (λ db. find_row (has_id i) db.tasks)
    if not (is_enabled row) then pure false else do
      update_tasks (λ t. has_id i t && t.enabled) enqueue_row
      start_task_worker
      pure true

unfoldable pub run_row : Option Task → Action Bool
run_row none = pure false
run_row (some t) = if t.enabled then enqueue_task t.id >> pure true else pure false

unfoldable pub run_task_by_name : String → Action Bool
unfolding run_row
run_task_by_name n = do
  cron ← cron_jobs_enabled
  if not cron
      then pure false
      else do row ← query (λ db. find_row (has_name n) db.tasks); run_row row

abbrev pub reenable_row : ℕ → Task → Task
reenable_row now t = record t { enabled = true; status = enabled_status t.status; updated_at = now }

unfoldable pub enable_and_run_row : Option Task → Action Bool
enable_and_run_row none = pure false
enable_and_run_row (some t) = do
  if t.enabled then pure tt else update_tasks (has_id t.id) reenable_row
  if is_running t.status || ltb 0 t.queued_count then pure true else enqueue_task t.id

unfoldable pub enable_and_run_task_by_name : String → Action Bool
unfolding enable_and_run_row
enable_and_run_task_by_name n = do
  row ← query (λ db. find_row (has_name n) db.tasks)
  enable_and_run_row row

-- `status = 'running' AND datetime(updated_at) < datetime('now', '-max_minutes minutes')`
abbrev pub is_stuck : ℕ → ℕ → Task → Bool
is_stuck now max_seconds t = is_running t.status && ltb (t.updated_at + max_seconds) now

abbrev pub watchdog_text : Error
watchdog_text = message "Watchdog: task was stuck in running state"

abbrev pub unstick_row : ℕ → Task → Task
unstick_row now t = record t {
  status = Status.idle;
  last_error = some watchdog_text;
  updated_at = now;
}

unfoldable pub recover : ℕ → Action Unit
recover max_seconds = do
  now ← gets (λ w. w.utc)
  count ← query (λ db. count_rows (is_stuck now max_seconds) db.tasks)
  if ltb 0 count then update_tasks_when (λ n. is_stuck n max_seconds) unstick_row else pure tt

-- Nothing is done while a worker holds the lease, and an exception is logged only.
unfoldable pub recover_stuck_tasks : ℕ → Action Unit
unfolding recover
recover_stuck_tasks max_seconds = do
  claimed ← is_claimed
  if claimed then pure tt else try_except (recover max_seconds) (λ _. pure tt)

abbrev pub request_row : ℕ → Task → Task
request_row now t = record t {
  status = if is_running t.status then t.status else Status.queued;
  last_error = none;
  next_retry_at = none;
  updated_at = now;
}

unfoldable pub mark_task_manual_run_requested : ℕ → Action Bool
mark_task_manual_run_requested i = update_tasks (has_id i) request_row >> pure true

abbrev pub queue_failed_row : Error → ℕ → Task → Task
queue_failed_row e now t = record t { status = Status.error; last_error = some e; updated_at = now }

unfoldable pub mark_task_queue_failed : ℕ → Error → Action Bool
mark_task_queue_failed i e = update_tasks (has_id i) (queue_failed_row e) >> pure true

-- `queued_count > 0 AND enabled = 1`
abbrev pub is_waiting : Task → Bool
is_waiting t = ltb 0 t.queued_count && t.enabled

unfoldable pub kick_if : Bool → Action Unit
kick_if true = start_task_worker >> pure tt
kick_if false = pure tt

-- A count that cannot be read counts as none.
unfoldable pub kick_worker_if_needed : Action Unit
unfolding kick_if
kick_worker_if_needed = do
  claimed ← is_claimed
  if claimed then pure tt else do
    pending ← try_except (query (λ db. count_rows is_waiting db.tasks)) (λ _. pure 0)
    kick_if (ltb 0 pending)
