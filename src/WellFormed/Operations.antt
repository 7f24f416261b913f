-- ===== src/WellFormed/Operations.antt =====
-- The invariant of the table, for the automatic enablement and the functions of app/tasks_engine.py.
use vodum.Common.{
  ℕ, ◌+◌, ◌≡◌, Bool, true, Option, none, some, List, String, refl, arith, leb, Bool-cases, inl, inr,
  find_row, update_rows,
}
use vodum.Tasks.{Task, Error, has_id}
use vodum.State.{
  Keeps, keeps_rules, Keeps-query_then, Keeps-pure, Keeps-try_except, update_tasks-at, World,
  Settings, Provider,
}
use vodum.Rules.{Croniter}
use vodum.AutoEnable.{
  set_named_task, monitoring, sync_providers, access_worker, stream_enforcer, sync_expiry, expiry,
  run_pass,
}
use vodum.Engine.{
  cron_jobs_enabled, start_task_worker, enqueue_task, run_row, run_task_by_name, enable_and_run_row,
  enable_and_run_task_by_name, recover_stuck_tasks, mark_task_manual_run_requested,
  mark_task_queue_failed, kick_if, kick_worker_if_needed, store_failure, mark_task_retry_or_error,
  reevaluate, plan_next, reschedule, handle_task_success, mark_task_running,
  finalize_task_running_failsafe, load_task_execution_context, retry_row,
}
use vodum.WellFormed.Rows.{IsWf, IsTable, error_row-IsSafe}
use vodum.WellFormed.Table.{Keeps-safe, All-update_found, Distinct-update}
use vodum.WellFormed.Configuration.{
  row_rules, signal_rules, set_task_enabled_for_auto_mode-Keeps,
  set_tasks_enabled_by_names_for_auto_mode-Keeps, with_named-Keeps,
  sync_expiry_tasks_from_settings-Keeps,
}

pub set_named_task-Keeps : (n : String) (e : Bool) → Keeps IsTable (set_named_task n e)
unfolding set_named_task
set_named_task-Keeps n e =
    with_named-Keeps n _ (λ i. search (keeps_rules, set_task_enabled_for_auto_mode-Keeps))

ruleset auto_rules = (
  signal_rules, set_named_task-Keeps, set_tasks_enabled_by_names_for_auto_mode-Keeps,
  sync_expiry_tasks_from_settings-Keeps,
)

pub monitoring-Keeps : Keeps IsTable monitoring
unfolding monitoring
monitoring-Keeps = search auto_rules

pub sync_providers-Keeps : Keeps IsTable sync_providers
unfolding sync_providers
sync_providers-Keeps = search auto_rules depth 8

pub access_worker-Keeps : (p : Provider) → Keeps IsTable (access_worker p)
unfolding access_worker
access_worker-Keeps p = search auto_rules depth 8

pub stream_enforcer-Keeps : Keeps IsTable stream_enforcer
unfolding stream_enforcer
stream_enforcer-Keeps = search auto_rules depth 8

sync_expiry-Keeps : (s : Option Settings) → Keeps IsTable (sync_expiry s)
unfolding sync_expiry
sync_expiry-Keeps none = search keeps_rules
sync_expiry-Keeps (some s) = search auto_rules depth 8

pub expiry-Keeps : Keeps IsTable expiry
unfolding expiry
expiry-Keeps = search (keeps_rules, sync_expiry-Keeps)

pub run_pass-Keeps : Keeps IsTable run_pass
unfolding run_pass
run_pass-Keeps =
    search
      (
        keeps_rules, sync_providers-Keeps, monitoring-Keeps, stream_enforcer-Keeps,
        access_worker-Keeps, expiry-Keeps,
      )
      depth 16

pub start_task_worker-Keeps : Keeps IsTable start_task_worker
unfolding start_task_worker
start_task_worker-Keeps = search signal_rules depth 9

pub cron_jobs_enabled-Keeps : Keeps IsTable cron_jobs_enabled
unfolding cron_jobs_enabled
cron_jobs_enabled-Keeps = search keeps_rules

pub enqueue_task-Keeps : (i : ℕ) → Keeps IsTable (enqueue_task i)
unfolding enqueue_task
enqueue_task-Keeps i = search (row_rules, start_task_worker-Keeps, cron_jobs_enabled-Keeps) depth 12

ruleset queue_rules =
    (row_rules, signal_rules, start_task_worker-Keeps, cron_jobs_enabled-Keeps, enqueue_task-Keeps)

run_row-Keeps : (r : Option Task) → Keeps IsTable (run_row r)
unfolding run_row
run_row-Keeps none = search queue_rules
run_row-Keeps (some t) = search queue_rules

pub run_task_by_name-Keeps : (n : String) → Keeps IsTable (run_task_by_name n)
unfolding run_task_by_name
run_task_by_name-Keeps n = search (queue_rules, run_row-Keeps) depth 8

enable_and_run_row-Keeps : (r : Option Task) → Keeps IsTable (enable_and_run_row r)
unfolding enable_and_run_row
enable_and_run_row-Keeps none = search queue_rules
enable_and_run_row-Keeps (some t) = search queue_rules depth 8

pub enable_and_run_task_by_name-Keeps : (n : String) → Keeps IsTable (enable_and_run_task_by_name n)
unfolding enable_and_run_task_by_name
enable_and_run_task_by_name-Keeps n = search (queue_rules, enable_and_run_row-Keeps) depth 8

pub recover_stuck_tasks-Keeps : (m : ℕ) → Keeps IsTable (recover_stuck_tasks m)
unfolding recover_stuck_tasks
recover_stuck_tasks-Keeps m = search queue_rules depth 12

pub mark_task_manual_run_requested-Keeps :
    (i : ℕ) → Keeps IsTable (mark_task_manual_run_requested i)
unfolding mark_task_manual_run_requested
mark_task_manual_run_requested-Keeps i = search queue_rules

pub mark_task_queue_failed-Keeps : (i : ℕ) (e : Error) → Keeps IsTable (mark_task_queue_failed i e)
unfolding mark_task_queue_failed
mark_task_queue_failed-Keeps i e = search queue_rules

kick_if-Keeps : (b : Bool) → Keeps IsTable (kick_if b)
unfolding kick_if
kick_if-Keeps true = search queue_rules
kick_if-Keeps _ = search queue_rules

pub kick_worker_if_needed-Keeps : Keeps IsTable kick_worker_if_needed
unfolding kick_worker_if_needed
kick_worker_if_needed-Keeps = search (queue_rules, kick_if-Keeps) depth 9

-- The retry is counted against the limit that was read from the same row, so the table stays
-- well formed: keys are distinct.
retry-IsTable :
    (i : ℕ) (e : Error) (delay now : ℕ) (t : Task) (ts : List Task)
    → find_row (has_id i) ts ≡ some t
    → leb (t.retry_count + 1) t.max_retries ≡ true
    → IsTable ts
    → IsTable (update_rows (has_id i) (retry_row e (t.retry_count + 1) delay now) ts)
retry-IsTable i e delay now t ts found fits h = record {
  rows = All-update_found IsWf i _ t ts h.distinct found (λ wf. ground arith) h.rows;
  distinct = Distinct-update _ _ (λ u. refl) ts h.distinct;
}

store_failure-IsTable :
    (i : ℕ) (e : Error) (w : World) (row : Option Task)
    → find_row (has_id i) w.db.tasks ≡ row
    → IsTable w.db.tasks
    → IsTable (store_failure i e row w).1.db.tasks
unfolding store_failure
store_failure-IsTable i e w none found h = (Keeps-safe _ _ (error_row-IsSafe e)).at w h
store_failure-IsTable i e w (some t) found h =
    elim (Bool-cases (leb (t.retry_count + 1) t.max_retries)) [
      | inl fits ↦
          rw fits (update_tasks-at IsTable _ _ w h (retry-IsTable i e _ w.utc t _ found fits h))
      | inr spent ↦ rw spent ((Keeps-safe _ _ (error_row-IsSafe e)).at w h)
    ]

pub mark_task_retry_or_error-Keeps :
    (i : ℕ) (e : Error) → Keeps IsTable (mark_task_retry_or_error i e)
unfolding mark_task_retry_or_error
mark_task_retry_or_error-Keeps i e =
    Keeps-try_except _ _ (Keeps-query_then _ _ (λ w h. store_failure-IsTable i e w _ refl h))
      (λ _. Keeps-pure tt)

reevaluate-Keeps : (n : String) → Keeps IsTable (reevaluate n)
unfolding reevaluate
reevaluate-Keeps n = search (keeps_rules, sync_providers-Keeps, monitoring-Keeps) depth 8

module _ (croniter : Croniter) where
  plan_next-Keeps : (i : ℕ) (s : String) → Keeps IsTable (plan_next croniter i s)
  unfolding plan_next
  plan_next-Keeps i s = search row_rules depth 9

  reschedule-Keeps : (i : ℕ) (s : Option String) → Keeps IsTable (reschedule croniter i s)
  unfolding reschedule
  reschedule-Keeps i none = search keeps_rules
  reschedule-Keeps i (some s) = search (keeps_rules, plan_next-Keeps)

  pub handle_task_success-Keeps :
      (i : ℕ) (n : String) (s : Option String) → Keeps IsTable (handle_task_success croniter i n s)
  unfolding handle_task_success
  handle_task_success-Keeps i n s = search (row_rules, reevaluate-Keeps, reschedule-Keeps) depth 8

pub mark_task_running-Keeps : (i : ℕ) → Keeps IsTable (mark_task_running i)
unfolding mark_task_running
mark_task_running-Keeps i = search row_rules

pub finalize_task_running_failsafe-Keeps :
    (i : ℕ) → Keeps IsTable (finalize_task_running_failsafe i)
unfolding finalize_task_running_failsafe
finalize_task_running_failsafe-Keeps i = search row_rules depth 8

pub load_task_execution_context-Keeps : (i : ℕ) → Keeps IsTable (load_task_execution_context i)
unfolding load_task_execution_context
load_task_execution_context-Keeps i = search row_rules depth 8
