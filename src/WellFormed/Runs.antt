-- ===== src/WellFormed/Runs.antt =====
-- A run of a task, the worker, a tick of the scheduler and the runtime keep the invariant of the
-- table, if the functions of the tasks themselves do.
use vodum.Common.{ℕ, zero, suc, Bool, ◌≡◌, refl, Option, none, some, List, [], ◌∷◌, String}
use vodum.Tasks.{Task}
use vodum.State.{
  Result, ok, raised, Action, Keeps, keeps_rules, Keeps-pure, Keeps-bind, Keeps-modify,
}
use vodum.Rules.{Croniter}
use vodum.Engine.{Context}
use vodum.Runner.{Job, Loader, finalize, run_job, run_loaded, run_context, run}
use vodum.Worker.{work_on, work, task_worker}
use vodum.Scheduler.{
  retry_row_of, advance, next_exec, first_run, later_run, scheduled_row, process_row, process_rows,
  tick_rows, tick,
}
use vodum.Runtime.{
  recover_state, loop_round, plan_check_update, force_row, force_check_update, first_pass, start,
}
use vodum.Media.{Tally, queue_enforcer, enqueue_stream_enforcer, after_run}
use vodum.WellFormed.Rows.{IsTable}
use vodum.WellFormed.Configuration.{row_rules, signal_rules}
use vodum.WellFormed.Operations.{
  run_pass-Keeps, enqueue_task-Keeps, cron_jobs_enabled-Keeps, kick_worker_if_needed-Keeps,
  mark_task_retry_or_error-Keeps, handle_task_success-Keeps, mark_task_running-Keeps,
  finalize_task_running_failsafe-Keeps, load_task_execution_context-Keeps,
}

-- The functions of the tasks write the table only in ways that keep it well formed.
abbrev pub JobsKeep : Loader → Type 0
JobsKeep loader = (n : String) (job : Job) → loader n ≡ ok job → (i : ℕ) → Keeps IsTable (job i)

finalize-Keeps : (i : ℕ) → Keeps IsTable (finalize i)
unfolding finalize
finalize-Keeps i = search (keeps_rules, finalize_task_running_failsafe-Keeps)

ruleset run_rules = (
  keeps_rules, finalize-Keeps, mark_task_retry_or_error-Keeps, handle_task_success-Keeps,
  mark_task_running-Keeps, load_task_execution_context-Keeps,
)

module _ (croniter : Croniter) where
  run_job-Keeps :
      (i : ℕ) (c : Context) (started : ℕ) (job : Job)
      → Keeps IsTable (job i)
      → Keeps IsTable (run_job croniter i c started job)
  unfolding run_job
  run_job-Keeps i c started job k = search run_rules depth 12

  run_loaded-Keeps :
      (i : ℕ) (c : Context) (started : ℕ) (r : Result Job)
      → ((job : Job) → r ≡ ok job → Keeps IsTable (job i))
      → Keeps IsTable (run_loaded croniter i c started r)
  unfolding run_loaded
  run_loaded-Keeps i c started (ok job) k =
      let body = run_job-Keeps i c started job (k job refl) in search run_rules depth 12
  run_loaded-Keeps i c started (raised e) k = search run_rules depth 8

  module _ (loader : Loader) (jobs : JobsKeep loader) where
    run_context-Keeps :
        (i : ℕ) (c : Option Context) → Keeps IsTable (run_context croniter loader i c)
    unfolding run_context
    run_context-Keeps i none = search keeps_rules
    run_context-Keeps i (some c) =
        let loaded = λ (started : ℕ).
          run_loaded-Keeps i c started (loader c.name) (λ job e. jobs c.name job e i) in
        search (run_rules, loaded) depth 12

    -- One run of a task keeps the table well formed, however it ends.
    pub run-Keeps : (i : ℕ) → Keeps IsTable (run croniter loader i)
    unfolding run
    run-Keeps i = search (run_rules, run_context-Keeps)

    work_on-Keeps :
        (rest : Action Bool) (row : Option Task)
        → Keeps IsTable rest
        → Keeps IsTable (work_on croniter loader rest row)
    unfolding work_on
    work_on-Keeps rest none k = search keeps_rules
    work_on-Keeps rest (some t) k = search (keeps_rules, run-Keeps) depth 8

    work-Keeps : (fuel : ℕ) → Keeps IsTable (work croniter loader fuel)
    unfolding work
    work-Keeps zero = Keeps-pure _
    work-Keeps (suc fuel) =
        let rest = work-Keeps fuel in search (keeps_rules, work_on-Keeps) depth 8

    pub task_worker-Keeps : (fuel : ℕ) → Keeps IsTable (task_worker croniter loader fuel)
    unfolding task_worker
    task_worker-Keeps fuel = search (signal_rules, work-Keeps, kick_worker_if_needed-Keeps)

ruleset tick_rules = (row_rules, signal_rules, enqueue_task-Keeps)

module _ (croniter : Croniter) where
  retry_row_of-Keeps : (t : Task) (now : ℕ) → Keeps IsTable (retry_row_of t now)
  unfolding retry_row_of
  retry_row_of-Keeps t now = search tick_rules depth 8

  advance-Keeps : (t : Task) (s : String) (now : ℕ) → Keeps IsTable (advance croniter t s now)
  unfolding advance
  advance-Keeps t s now = search tick_rules depth 8

  next_exec-Keeps :
      (t : Task) (s : String) (now : ℕ) (o : Option ℕ)
      → Keeps IsTable (next_exec croniter t s now o)
  unfolding next_exec
  next_exec-Keeps t s now (some n) = search keeps_rules
  next_exec-Keeps t s now none = search tick_rules depth 8

  first_run-Keeps :
      (t : Task) (s : String) (now n : ℕ) → Keeps IsTable (first_run croniter t s now n)
  unfolding first_run
  first_run-Keeps t s now n = search (tick_rules, advance-Keeps) depth 12

  later_run-Keeps :
      (t : Task) (s : String) (now n : ℕ) → Keeps IsTable (later_run croniter t s now n)
  unfolding later_run
  later_run-Keeps t s now n = search (tick_rules, advance-Keeps) depth 12

  scheduled_row-Keeps :
      (t : Task) (s : Option String) (now : ℕ) → Keeps IsTable (scheduled_row croniter t s now)
  unfolding scheduled_row
  scheduled_row-Keeps t none now = search keeps_rules
  scheduled_row-Keeps t (some s) now =
      search (keeps_rules, next_exec-Keeps, first_run-Keeps, later_run-Keeps) depth 8

  process_row-Keeps : (t : Task) (now : ℕ) → Keeps IsTable (process_row croniter t now)
  unfolding process_row
  process_row-Keeps t now = search (keeps_rules, retry_row_of-Keeps, scheduled_row-Keeps)

  process_rows-Keeps : (ts : List Task) (now : ℕ) → Keeps IsTable (process_rows croniter ts now)
  unfolding process_rows
  process_rows-Keeps [] now = search keeps_rules
  process_rows-Keeps (t ∷ ts) now =
      Keeps-bind _ _ (process_row-Keeps t now) (λ _. process_rows-Keeps ts now)

  tick_rows-Keeps : (ts : Option (List Task)) (now : ℕ) → Keeps IsTable (tick_rows croniter ts now)
  unfolding tick_rows
  tick_rows-Keeps none now = search keeps_rules
  tick_rows-Keeps (some ts) now = search (keeps_rules, process_rows-Keeps)

  pub tick-Keeps : (now : ℕ) (b : Bool) → Keeps IsTable (tick croniter now b)
  unfolding tick
  tick-Keeps now b = search (keeps_rules, run_pass-Keeps, tick_rows-Keeps) depth 8

  ruleset runtime_rules =
      (tick_rules, cron_jobs_enabled-Keeps, kick_worker_if_needed-Keeps, run_pass-Keeps)

  pub recover_state-Keeps : Keeps IsTable recover_state
  unfolding recover_state
  recover_state-Keeps = search runtime_rules depth 8

  pub loop_round-Keeps : Keeps IsTable (loop_round croniter)
  unfolding loop_round
  loop_round-Keeps = search (runtime_rules, tick-Keeps) depth 12

  plan_check_update-Keeps : (i : ℕ) → Keeps IsTable (plan_check_update croniter i)
  unfolding plan_check_update
  plan_check_update-Keeps i = search runtime_rules depth 8

  force_row-Keeps : (o : Option Task) → Keeps IsTable (force_row croniter o)
  unfolding force_row
  force_row-Keeps none = search keeps_rules
  force_row-Keeps (some t) = search (runtime_rules, plan_check_update-Keeps) depth 12

  pub force_check_update-Keeps : Keeps IsTable (force_check_update croniter)
  unfolding force_check_update
  force_check_update-Keeps = search (runtime_rules, force_row-Keeps) depth 8

  pub start-Keeps : Keeps IsTable (start croniter)
  unfolding start first_pass
  start-Keeps = search (runtime_rules, Keeps-modify, force_check_update-Keeps) depth 14

queue_enforcer-Keeps : (r : Option Task) → Keeps IsTable (queue_enforcer r)
unfolding queue_enforcer
queue_enforcer-Keeps none = search keeps_rules
queue_enforcer-Keeps (some t) = search (keeps_rules, row_rules) depth 12

enqueue_stream_enforcer-Keeps : Keeps IsTable enqueue_stream_enforcer
unfolding enqueue_stream_enforcer
enqueue_stream_enforcer-Keeps = search (keeps_rules, queue_enforcer-Keeps)

-- The end of a run of the media worker.
pub after_run-Keeps : (t : Tally) → Keeps IsTable (after_run t)
unfolding after_run
after_run-Keeps t = search (keeps_rules, enqueue_stream_enforcer-Keeps)
