-- ===== src/WellFormed/Reach.antt =====
-- What the processes of the program can do to the table in any order: every entry point of the
-- scheduler's code, and whatever other code does that leaves the `tasks` table alone.
use vodum.Common.{ℕ, Bool, ◌≡◌, List, String}
use vodum.Tasks.{Error}
use vodum.State.{World, Action, ExpiryMode, Keeps, Keeps-bind, Keeps-pure, pure, ◌>>◌}
use vodum.Rules.{Croniter}
use vodum.Config.{
  set_task_enabled, set_tasks_enabled_by_names, set_task_enabled_for_auto_mode,
  set_tasks_enabled_by_names_for_auto_mode, ensure_tasks_enabled, apply_cron_master_switch,
  sync_expiry_tasks_from_settings, prepare_restored_database,
}
use vodum.AutoEnable.{run_pass}
use vodum.Engine.{
  enqueue_task, run_task_by_name, enable_and_run_task_by_name, recover_stuck_tasks,
  mark_task_manual_run_requested, mark_task_queue_failed, kick_worker_if_needed,
}
use vodum.Runner.{Loader, run}
use vodum.Worker.{task_worker}
use vodum.Scheduler.{tick}
use vodum.Runtime.{recover_state, loop_round, force_check_update, start}
use vodum.Media.{Tally, after_run}
use vodum.WellFormed.Rows.{IsTable}
use vodum.WellFormed.Configuration.{
  set_task_enabled-Keeps, set_tasks_enabled_by_names-Keeps, set_task_enabled_for_auto_mode-Keeps,
  set_tasks_enabled_by_names_for_auto_mode-Keeps, ensure_tasks_enabled-Keeps,
  apply_cron_master_switch-Keeps, sync_expiry_tasks_from_settings-Keeps,
  prepare_restored_database-Keeps,
}
use vodum.WellFormed.Operations.{
  run_pass-Keeps, enqueue_task-Keeps, run_task_by_name-Keeps, enable_and_run_task_by_name-Keeps,
  recover_stuck_tasks-Keeps, mark_task_manual_run_requested-Keeps, mark_task_queue_failed-Keeps,
  kick_worker_if_needed-Keeps,
}
use vodum.WellFormed.Runs.{
  JobsKeep, run-Keeps, task_worker-Keeps, tick-Keeps, recover_state-Keeps, loop_round-Keeps,
  force_check_update-Keeps, start-Keeps, after_run-Keeps,
}

-- The entry points, with their arguments.
pub data Entry : Type 0 where
  set_enabled auto_enabled : ℕ → Bool → Entry
  names_enabled auto_names_enabled : List String → Bool → Entry
  ensure : List String → Entry
  master_switch : Bool → Entry
  expiry_settings : ExpiryMode → Bool → Entry
  restored auto_pass kick recovered round check_update started : Entry
  enqueue manual_run run_one worker watchdog : ℕ → Entry
  queue_failed : ℕ → Error → Entry
  run_named enable_named : String → Entry
  tick_at : ℕ → Bool → Entry
  media_run : Tally → Entry

abbrev forget : {A : Type 0} → Action A → Action Unit
forget m = m >> pure tt

module _ (croniter : Croniter) (loader : Loader) where
  pub perform : Entry → Action Unit
  perform (set_enabled i e) = forget (set_task_enabled i e)
  perform (auto_enabled i e) = forget (set_task_enabled_for_auto_mode i e)
  perform (names_enabled ns e) = forget (set_tasks_enabled_by_names ns e)
  perform (auto_names_enabled ns e) = forget (set_tasks_enabled_by_names_for_auto_mode ns e)
  perform (ensure ns) = forget (ensure_tasks_enabled ns)
  perform (master_switch e) = forget (apply_cron_master_switch e)
  perform (expiry_settings m e) = forget (sync_expiry_tasks_from_settings m e)
  perform restored = forget prepare_restored_database
  perform auto_pass = run_pass
  perform kick = kick_worker_if_needed
  perform recovered = recover_state
  perform round = loop_round croniter
  perform check_update = forget (force_check_update croniter)
  perform started = forget (start croniter)
  perform (enqueue i) = forget (enqueue_task i)
  perform (manual_run i) = forget (mark_task_manual_run_requested i)
  perform (run_one i) = forget (run croniter loader i)
  perform (worker fuel) = forget (task_worker croniter loader fuel)
  perform (watchdog m) = recover_stuck_tasks m
  perform (queue_failed i e) = forget (mark_task_queue_failed i e)
  perform (run_named n) = forget (run_task_by_name n)
  perform (enable_named n) = forget (enable_and_run_task_by_name n)
  perform (tick_at now b) = forget (tick croniter now b)
  perform (media_run t) = forget (after_run t)

  -- `call` may find any request refused: `w.faults` is arbitrary, and `other` may change it.
  pub data Step (w : World) : World → Type 0 where
    call : (e : Entry) → Step w (perform e w).1
    other : {w' : World} → w'.db.tasks ≡ w.db.tasks → Step w w'

  pub data Reach (w : World) : World → Type 0 where
    here : Reach w w
    next : {u v : World} → Reach w u → Step u v → Reach w v

  module _ (jobs : JobsKeep loader) where
    forget-Keeps : {A : Type 0} (m : Action A) → Keeps IsTable m → Keeps IsTable (forget m)
    forget-Keeps m k = Keeps-bind m _ k (λ _. Keeps-pure tt)

    perform-Keeps : (e : Entry) → Keeps IsTable (perform e)
    unfolding perform
    perform-Keeps (set_enabled i e) = forget-Keeps _ (set_task_enabled-Keeps i e)
    perform-Keeps (auto_enabled i e) = forget-Keeps _ (set_task_enabled_for_auto_mode-Keeps i e)
    perform-Keeps (names_enabled ns e) = forget-Keeps _ (set_tasks_enabled_by_names-Keeps ns e)
    perform-Keeps (auto_names_enabled ns e) =
        forget-Keeps _ (set_tasks_enabled_by_names_for_auto_mode-Keeps ns e)
    perform-Keeps (ensure ns) = forget-Keeps _ (ensure_tasks_enabled-Keeps ns)
    perform-Keeps (master_switch e) = forget-Keeps _ (apply_cron_master_switch-Keeps e)
    perform-Keeps (expiry_settings m e) = forget-Keeps _ (sync_expiry_tasks_from_settings-Keeps m e)
    perform-Keeps restored = forget-Keeps _ prepare_restored_database-Keeps
    perform-Keeps auto_pass = run_pass-Keeps
    perform-Keeps kick = kick_worker_if_needed-Keeps
    perform-Keeps recovered = recover_state-Keeps croniter
    perform-Keeps round = loop_round-Keeps croniter
    perform-Keeps check_update = forget-Keeps _ (force_check_update-Keeps croniter)
    perform-Keeps started = forget-Keeps _ (start-Keeps croniter)
    perform-Keeps (enqueue i) = forget-Keeps _ (enqueue_task-Keeps i)
    perform-Keeps (manual_run i) = forget-Keeps _ (mark_task_manual_run_requested-Keeps i)
    perform-Keeps (run_one i) = forget-Keeps _ (run-Keeps croniter loader jobs i)
    perform-Keeps (worker fuel) = forget-Keeps _ (task_worker-Keeps croniter loader jobs fuel)
    perform-Keeps (watchdog m) = recover_stuck_tasks-Keeps m
    perform-Keeps (queue_failed i e) = forget-Keeps _ (mark_task_queue_failed-Keeps i e)
    perform-Keeps (run_named n) = forget-Keeps _ (run_task_by_name-Keeps n)
    perform-Keeps (enable_named n) = forget-Keeps _ (enable_and_run_task_by_name-Keeps n)
    perform-Keeps (tick_at now b) = forget-Keeps _ (tick-Keeps croniter now b)
    perform-Keeps (media_run t) = forget-Keeps _ (after_run-Keeps t)

    Step-IsTable : {u v : World} → Step u v → IsTable u.db.tasks → IsTable v.db.tasks
    Step-IsTable {u = u} (call e) h = (perform-Keeps e).at u h
    Step-IsTable (other same) h = rw same h

    -- From a well-formed table, whatever entry points of the scheduler run, in whatever order,
    -- with whichever requests to SQLite refused and whatever else changes between them, the
    -- table stays well formed: keys are distinct, a disabled status means a disabled task, at
    -- most one run of a task is queued, and no more retries are counted than are allowed. The
    -- functions of the tasks are assumed to keep the table well formed themselves.
    pub Reach-IsTable : {w v : World} → IsTable w.db.tasks → Reach w v → IsTable v.db.tasks
    Reach-IsTable h here = h
    Reach-IsTable h (next r s) = Step-IsTable s (Reach-IsTable h r)
