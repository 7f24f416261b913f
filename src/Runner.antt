-- ===== src/Runner.antt =====
-- app/core/tasks/execution.py: `TaskExecutionRunner`, one run of one task. The callables of the
-- tasks are parameters; app/tasks_engine.py passes the functions of `Engine` as the others.
use vodum.Common.{ℕ, ◌-◌, true, false, not, Option, none, some, String, if◌then◌else◌}
use vodum.State.{Result, ok, raised, Action, pure, gets, lift, ◌>>=◌, ◌>>◌, try_except, try_finally}
use vodum.Rules.{Croniter, Payload, validate_task_result}
use vodum.Engine.{
  Context, load_task_execution_context, mark_task_running, handle_task_success,
  mark_task_retry_or_error, finalize_task_running_failsafe,
}

-- `run(task_id, db)` of a module in app/tasks, and the loader of such a function by name.
abbrev pub Job : Type 0
Job = ℕ → Action Payload

abbrev pub Loader : Type 0
Loader = String → Result Job

-- `_finalize`
unfoldable pub finalize : ℕ → Action Unit
finalize i = try_except (finalize_task_running_failsafe i) (λ _. pure tt)

module _ (croniter : Croniter) where
  -- The body of the second `try`.
  unfoldable pub run_job : ℕ → Context → ℕ → Job → Action (Option Payload)
  run_job i context started job = do
    result ← job i
    now ← gets (λ w. w.utc)
    lift (validate_task_result context.name result (now - started) context.max_duration)
    handle_task_success croniter i context.name context.schedule
    pure (some result)

  unfoldable pub run_loaded : ℕ → Context → ℕ → Result Job → Action (Option Payload)
  run_loaded i context started (raised e) = mark_task_retry_or_error i e >> finalize i >> pure none
  run_loaded i context started (ok job) =
      try_finally
        (try_except (run_job i context started job)
          (λ e. mark_task_retry_or_error i e >> pure none))
        (finalize i)

  module _ (loader : Loader) where
    unfoldable pub run_context : ℕ → Option Context → Action (Option Payload)
    run_context i none = pure none
    run_context i (some context) = do
      started ← gets (λ w. w.utc)
      marked ← try_except (mark_task_running i >> pure true) (λ _. pure false)
      if not marked then pure none else run_loaded i context started (loader context.name)

    -- `TaskExecutionRunner.run`
    unfoldable pub run : ℕ → Action (Option Payload)
    run i = do context ← load_task_execution_context i; run_context i context
