-- ===== src/Examples/Scheduling.antt =====
-- The theorems on the scheduler's tasks at the rows of `Samples`, and some runs of the code.
use vodum.Common.{
  ◌⊎◌, ◌+◌, ℕ, ◌+◌, ◌≤◌, ◌≡◌, refl, Bool, true, false, none, some, [], ◌∷◌, All, find_row,
  count_rows, update_rows, map, subst, String, arith,
}
use vodum.Tasks.{Task, Status, value_error, has_id}
use vodum.State.{Quiet, raise, World, ok, raised, Keeps, Keeps-pure, actions}
use vodum.Rules.{Advances, Croniter, retry_modifier_for_attempt, retry_is_pending, nothing}
use vodum.Config.{apply_cron_master_switch}
use vodum.Engine.{
  cron_jobs_enabled, enqueue_task, is_waiting, store_failure, mark_task_retry_or_error,
}
use vodum.Finishing.{is_left_running, run_stops}
use vodum.Runner.{run, Job}
use vodum.Worker.{next_queued, comes_before, priority}
use vodum.Scheduler.{process_row, retried_row}
use vodum.WellFormed.{IsWf, IsTable, JobsKeep}
use vodum.WellFormed.Reach.{Reach, here, next, call, perform, worker, tick_at, Reach-IsTable}
use vodum.Admission.{enqueued}
use vodum.Selection.{IsNoLater, next_queued_first}
use vodum.Switch.{switch_roundtrip}
use vodum.Retries.{IsFailure, mark_task_retry_or_error-IsFailure, last_retry_is_lost}
use vodum.Skew.{retry_skew}
use vodum.Samples.{
  new_task, servers_task, stream_task, rows, world_of, world, hourly, idle_job, idle_loader,
  failing_job, failing_loader,
}

idle-JobsKeep : JobsKeep idle_loader
idle-JobsKeep n job e i =
    let same : idle_job ≡ job = cc in
    subst (λ (j : Job). Keeps IsTable (j i)) same (Keeps-pure nothing)

row-IsWf :
    (i : ℕ) (n : String) (e : Bool) (s : Status) (k : ℕ)
    → k ≤ 1
    → (s ≡ Status.disabled → e ≡ false)
    → IsWf (new_task i n e s k)
row-IsWf i n e s k h off = record { off = off; single = h; bounded = omega arith }

rows-IsTable : IsTable rows
rows-IsTable = record {
  rows = (
    row-IsWf 1 _ _ _ _ (omega arith) (λ e. ground arith),
    (
      row-IsWf 2 _ _ _ _ (omega arith) (λ e. refl),
      (
        row-IsWf 3 _ _ _ _ (omega arith) (λ e. ground arith),
        (row-IsWf 4 _ _ _ _ (omega arith) (λ e. ground arith), tt),
      ),
    ),
  );
  distinct = (refl, (refl, (refl, (refl, tt))));
}

abbrev after_tick : World
after_tick = (perform hourly idle_loader (tick_at 1000 true) world).1

abbrev after_work : World
after_work = (perform hourly idle_loader (worker 3) after_tick).1

work-Reach : Reach hourly idle_loader world after_work
work-Reach = next (next here (call (tick_at 1000 true))) (call (worker 3))

Reach-IsTable_example : IsTable after_work.db.tasks
Reach-IsTable_example = Reach-IsTable hourly idle_loader idle-JobsKeep rows-IsTable work-Reach

next_queued_first_example :
    (is_waiting stream_task ≡ true)
    × All (λ u. (is_waiting u ≡ false) ⊎ IsNoLater stream_task u) rows
unfolding next_queued comes_before priority
next_queued_first_example = next_queued_first rows

switch_roundtrip_example :
    let off = (apply_cron_master_switch false world).1 in
    let twice = (apply_cron_master_switch false off).1 in
    (count_rows is_waiting off.db.tasks ≡ 0)
    × (map (λ t. t.enabled) (apply_cron_master_switch true off).1.db.tasks
        ≡ true ∷ false ∷ true ∷ true ∷ [])
    × (map (λ t. t.enabled) (apply_cron_master_switch true twice).1.db.tasks
        ≡ true ∷ false ∷ true ∷ true ∷ [])
switch_roundtrip_example = switch_roundtrip world refl

mark_task_retry_or_error-IsFailure_example :
    (t' : Task) × (find_row (has_id 1) (mark_task_retry_or_error 1 value_error world).1.db.tasks
      ≡ some t')
    × IsFailure value_error 1000 servers_task t'
mark_task_retry_or_error-IsFailure_example =
    mark_task_retry_or_error-IsFailure 1 value_error world servers_task refl refl

-- A task that has failed twice and may be tried three times.
abbrev worn_task : Task
worn_task = record servers_task { retry_count = 2 }

last_retry_is_lost_example :
    (t' : Task) × (find_row
        (has_id 1)
        (mark_task_retry_or_error 1 value_error (world_of (worn_task ∷ []))).1.db.tasks
      ≡ some t')
    × (t'.next_retry_at ≡ some (1000 + retry_modifier_for_attempt 3))
    × (retry_is_pending t'.status t'.next_retry_at t'.retry_count t'.max_retries ≡ false)
last_retry_is_lost_example =
    last_retry_is_lost 1 value_error (world_of (worn_task ∷ [])) worn_task refl refl refl refl

-- A croniter that refuses every expression.
abbrev refusing : Croniter
refusing schedule base = raised value_error

-- A task that has not been planned yet.
abbrev unplanned_task : Task
unplanned_task = record servers_task { next_run = none }

-- A task that has failed once and waits for its second attempt.
abbrev failed_task : Task
failed_task = record servers_task {
  status = Status.error;
  retry_count = 1;
  next_retry_at = some 960;
}

-- One hour east of UTC.
abbrev east : World
east = record (world_of (servers_task ∷ [])) { local = 4600 }

retry_skew_example :
    let v = (mark_task_retry_or_error 1 value_error east).1 in
    (row : Task) × (find_row (has_id 1) v.db.tasks ≡ some row)
    × ((process_row hourly row 4600 v).1.db.tasks
        ≡ update_rows (has_id row.id) (retried_row v.utc) (enqueued row.id v).db.tasks)
unfolding mark_task_retry_or_error store_failure actions
retry_skew_example =
    retry_skew hourly 1 value_error east servers_task refl refl refl (omega arith) (omega arith)
      refl

-- A task that has run since half an hour, at a limit of ten minutes.
abbrev stuck_task : Task
stuck_task = record stream_task { status = Status.running; last_run = some 100; updated_at = 100 }

-- The delays of the first attempts, and a refused enqueue: the task is disabled.
delays : map retry_modifier_for_attempt (1 ∷ 2 ∷ 3 ∷ 4 ∷ []) ≡ 60 ∷ 300 ∷ 900 ∷ 1800 ∷ []
unfolding retry_modifier_for_attempt
delays = refl

refused : enqueue_task 2 world ≡ (ok false, world)
unfolding enqueue_task cron_jobs_enabled actions
refused = refl

-- The task of the stream enforcer, with nothing queued.
abbrev enforcer_world : World
enforcer_world = world_of (new_task 3 "stream_enforcer" true Status.idle 0 ∷ [])

hourly-Advances : Advances hourly
hourly-Advances schedule base t e = let same : base + 3600 ≡ t = cc in omega (arith, same)

failing-Quiet : (n : String) (j : Job) → failing_loader n ≡ ok j → (i : ℕ) → Quiet (j i)
unfolding raise
failing-Quiet n j e i =
    let same : failing_job ≡ j = cc in
    subst (λ (k : Job). Quiet (k i)) same (record { at = λ w h. h })

-- The task fails, and its row is left with the error.
run_stops_example : is_left_running 3 (run hourly failing_loader 3 world).1 ≡ false
run_stops_example = run_stops hourly failing_loader failing-Quiet 3 world refl
