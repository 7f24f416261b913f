-- ===== src/Engine/Outcome.antt =====
-- app/tasks_engine.py: the writes that begin and end a run of a task, and the context that a run
-- loads. Logging is left out.
use vodum.Common.{
  ℕ, ◌+◌, ◌-◌, Bool, false, Option, none, some, String, str_eq, ltb, leb, find_row, if◌then◌else◌,
}
use vodum.Tasks.{Task, Status, is_running, ScheduleMode, cron, has_id, Error, message}
use vodum.State.{Action, pure, gets, lift, ◌>>=◌, ◌>>◌, try_except, query, update_tasks}
use vodum.Rules.{Croniter, has_text, retry_modifier_for_attempt, compute_next_task_run}
use vodum.AutoEnable.{sync_providers, monitoring}

-- `CASE WHEN queued_count > 0 THEN 'queued' ELSE s END`
abbrev pub queued_or : Status → Task → Status
queued_or s t = if ltb 0 t.queued_count then Status.queued else s

abbrev pub retry_row : Error → ℕ → ℕ → ℕ → Task → Task
retry_row e attempt delay now t = record t {
  status = queued_or Status.error t;
  last_run = some now;
  last_error = some e;
  retry_count = attempt;
  next_retry_at = some (now + delay);
  updated_at = now;
}

abbrev pub error_row : Error → ℕ → Task → Task
error_row e now t = record t {
  status = queued_or Status.error t;
  last_run = some now;
  last_error = some e;
  next_retry_at = none;
  updated_at = now;
}

abbrev pub retry_count_of : Option Task → ℕ
retry_count_of none = 0
retry_count_of (some t) = t.retry_count

abbrev pub max_retries_of : Option Task → ℕ
max_retries_of none = 0
max_retries_of (some t) = t.max_retries

unfoldable pub store_failure : ℕ → Error → Option Task → Action Unit
store_failure i e row =
    let attempt = retry_count_of row + 1 in
    if leb attempt (max_retries_of row)
    then update_tasks (has_id i) (retry_row e attempt (retry_modifier_for_attempt attempt))
    else update_tasks (has_id i) (error_row e)

-- What goes wrong while the failure is stored is only logged.
unfoldable pub mark_task_retry_or_error : ℕ → Error → Action Unit
unfolding store_failure
mark_task_retry_or_error i e =
    try_except (do row ← query (λ db. find_row (has_id i) db.tasks); store_failure i e row)
      (λ _. pure tt)

abbrev pub success_row : ℕ → Task → Task
success_row now t = record t {
  status = queued_or Status.idle t;
  last_run = some now;
  last_error = none;
  retry_count = 0;
  next_retry_at = none;
  updated_at = now;
}

-- After `check_servers` the tasks that depend on servers are evaluated again.
unfoldable pub reevaluate : String → Action Unit
reevaluate name =
    if str_eq name "check_servers"
    then try_except sync_providers (λ _. pure tt) >> try_except monitoring (λ _. pure tt)
    else pure tt

abbrev mode_of : Option Task → ScheduleMode
mode_of none = cron
mode_of (some t) = t.schedule_mode

abbrev interval_of : Option Task → ℕ
interval_of none = 0
interval_of (some t) = t.interval_seconds

-- `UPDATE tasks SET next_run=? WHERE id=?`
abbrev pub plan_row : ℕ → ℕ → Task → Task
plan_row next now t = record t { next_run = some next }

module _ (croniter : Croniter) where
  unfoldable pub plan_next : ℕ → String → Action Unit
  plan_next i schedule = do
    row ← query (λ db. find_row (has_id i) db.tasks)
    now ← gets (λ w. w.local)
    next ← lift (compute_next_task_run croniter schedule (mode_of row) (interval_of row) now)
    update_tasks (has_id i) (plan_row next)

  unfoldable pub reschedule : ℕ → Option String → Action Unit
  unfolding plan_next
  reschedule i none = pure tt
  reschedule i (some s) =
      if has_text (some s) then try_except (plan_next i s) (λ _. pure tt) else pure tt

  unfoldable pub handle_task_success : ℕ → String → Option String → Action Unit
  unfolding reevaluate reschedule
  handle_task_success i name schedule = do
    update_tasks (has_id i) success_row
    reevaluate name
    reschedule i schedule

abbrev pub running_row : ℕ → Task → Task
running_row now t = record t {
  status = Status.running;
  last_error = none;
  last_attempt_at = some now;
  next_retry_at = none;
  queued_count = t.queued_count - 1;
  updated_at = now;
}

unfoldable pub mark_task_running : ℕ → Action Unit
mark_task_running i = update_tasks (has_id i) running_row

abbrev pub failsafe_text : Error
failsafe_text = message "Failsafe: task exited without explicit status update"

abbrev pub failsafe_row : ℕ → Task → Task
failsafe_row now t = record t {
  status = Status.idle;
  last_error = elim t.last_error [ none ↦ some failsafe_text | some e ↦ some e ];
  updated_at = now;
}

abbrev pub found_running : Option Task → Bool
found_running none = false
found_running (some t) = is_running t.status

unfoldable pub finalize_task_running_failsafe : ℕ → Action Unit
finalize_task_running_failsafe i = do
  row ← query (λ db. find_row (has_id i) db.tasks)
  if found_running row then update_tasks (has_id i) failsafe_row else pure tt

-- TASK_MAX_DURATION and its default, in seconds.
unfoldable pub task_max_duration : String → ℕ
task_max_duration name =
    if str_eq name "sync_plex"
    then 3600
    else if str_eq name "sync_jellyfin"
    then 1800
    else if str_eq name "import_tautulli"
    then 21600
    else if str_eq name "monitor_collect_sessions"
    then 60
    else if str_eq name "monitor_enqueue_refresh"
    then 60
    else if str_eq name "media_jobs_worker"
    then 120
    else if str_eq name "migration_worker"
    then 1800
    else 1800

pub record Context : Type 0 where
  pub name : String
  pub schedule : Option String
  pub max_duration : ℕ

abbrev context_of : Task → Context
context_of t = record {
  name = t.name;
  schedule = t.schedule;
  max_duration = task_max_duration t.name;
}

unfoldable pub load_task_execution_context : ℕ → Action (Option Context)
load_task_execution_context i = do
  row ← query (λ db. find_row (has_id i) db.tasks)
  pure (elim row [ none ↦ none | some t ↦ some (context_of t) ])
