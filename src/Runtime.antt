-- ===== src/Runtime.antt =====
-- app/core/tasks/runtime.py: `SchedulerRuntime`, the start of the scheduler, the recovery at boot
-- and one round of its endless loop.
use vodum.Common.{ℕ, Bool, true, false, not, ◌||◌, Option, none, some, ltb, find_row, if◌then◌else◌}
use vodum.Tasks.{Task, Status, is_running, is_queued, is_idle, cron, has_id, has_name, thread_error}
use vodum.State.{
  Action, pure, gets, lift, modify, ◌>>=◌, ◌>>◌, try_except, request, query, update_tasks,
}
use vodum.Signals.{consume_auto_enable_dirty}
use vodum.Rules.{Croniter, task_is_busy, compute_next_task_run}
use vodum.AutoEnable.{run_pass}
use vodum.Engine.{cron_jobs_enabled, enqueue_task, kick_worker_if_needed}
use vodum.Scheduler.{advance_row, tick}

-- `WHERE status IN ('running','queued','idle')`
abbrev pub is_recoverable : Task → Bool
is_recoverable t = is_running t.status || is_queued t.status || is_idle t.status

abbrev pub recovered_status : Task → Status
recovered_status t =
    if not t.enabled then t.status else if ltb 0 t.queued_count then Status.queued else Status.idle

abbrev pub recover_row : ℕ → Task → Task
recover_row now t = record t { status = recovered_status t; updated_at = now }

unfoldable pub recover_state : Action Unit
recover_state =
    try_except (update_tasks is_recoverable recover_row >> kick_worker_if_needed) (λ _. pure tt)

module _ (croniter : Croniter) where
  -- The body of `while True` in `loop`; a tick that raises is logged.
  unfoldable pub loop_round : Action Unit
  loop_round = do
    on ← cron_jobs_enabled
    if not on then pure tt else do
      kick_worker_if_needed
      try_except
          (do
            now ← gets (λ w. w.local)
            dirty ← consume_auto_enable_dirty
            tick croniter now dirty
            pure tt)
          (λ _. pure tt)

  unfoldable pub plan_check_update : ℕ → Action Unit
  plan_check_update i = do
    now ← gets (λ w. w.local)
    next ← lift (compute_next_task_run croniter "0 4 * * *" cron 0 now)
    update_tasks (has_id i) (advance_row next)

  unfoldable pub force_row : Option Task → Action Bool
  unfolding plan_check_update
  force_row none = pure false
  force_row (some t) =
      if not t.enabled || task_is_busy t.status t.queued_count then pure false else do
        done ← enqueue_task t.id
        if not done
            then pure false
            else do try_except (plan_check_update t.id) (λ _. pure tt); pure true

  unfoldable pub force_check_update : Action Bool
  unfolding force_row
  force_check_update =
      try_except (do row ← query (λ db. find_row (has_name "check_update") db.tasks); force_row row)
        (λ _. pure false)

  unfoldable pub first_pass : Action Unit
  first_pass = do
    on ← cron_jobs_enabled
    if on then run_pass >> force_check_update >> pure tt else pure tt

  -- `start`: the threads of the watchdog and of the loop are requests.
  unfoldable pub start : Action Bool
  unfolding first_pass
  start = do
    started ← gets (λ w. w.started)
    if started then pure false else do
      modify (λ w. record w { started = true })
      request thread_error
      try_except first_pass (λ _. pure tt)
      request thread_error
      pure true
