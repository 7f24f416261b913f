-- ===== src/Ticks.antt =====
-- app/core/tasks/scheduler.py, `_process_row`: when a tick of the scheduler queues a task.
use vodum.Common.{
  ltb, Bool-cases, inl, inr, ◌<◌, ◌+◌, String, ℕ, ◌≡◌, true, false, ◌||◌, ◌&&◌, none, some, List,
  [], ◌∷◌, String, leb, update_rows, arith, if◌then◌else◌,
}
use vodum.Tasks.{ScheduleMode, Task, is_running, is_queued, has_id, Error}
use vodum.State.{World, ok, raised, actions}
use vodum.Rules.{
  Croniter, Advances, has_text, retry_is_pending, task_is_busy, scheduled_run_is_due,
  compute_next_task_run,
}
use vodum.Scheduler.{retried_row, process_row, process_rows, or_now}
use vodum.Admission.{enqueued, admits, enqueue_task_lem}

module _ (croniter : Croniter) where
  -- A tick does nothing to a task that runs or that is queued, whatever its times say and
  -- whichever requests would be refused.
  pub process_row_busy :
      (row : Task) (now : ℕ) (w : World)
      → is_running row.status || is_queued row.status ≡ true
      → process_row croniter row now w ≡ (ok tt, w)
  unfolding process_row retry_is_pending task_is_busy actions
  process_row_busy row now w busy = ground arith

  -- One row whose next time cannot be computed ends the tick: the exception reaches the caller,
  -- and none of the rows behind it is looked at.
  pub process_rows_abort :
      (row : Task) (rows : List Task) (schedule : String) (now : ℕ) (e : Error) (w : World)
      → retry_is_pending row.status row.next_retry_at row.retry_count row.max_retries ≡ false
      → task_is_busy row.status row.queued_count ≡ false
      → row.schedule ≡ some schedule
      → has_text (some schedule) ≡ true
      → row.next_run ≡ none
      → ((base : ℕ)
          → compute_next_task_run croniter schedule row.schedule_mode row.interval_seconds base
            ≡ raised e)
      → process_rows croniter (row ∷ rows) now w ≡ (raised e, w)
  unfolding process_rows process_row actions
  process_rows_abort row rows schedule now e w calm free s text unplanned bad =
      ground (arith, bad (or_now row.last_run now))

  -- A row that waits for a retry is queued exactly if the local clock has reached the time of the
  -- retry and the queue admits the task; then that time is cleared. Its schedule is not looked
  -- at. No request fails.
  pub process_row_retry :
      (row : Task) (at now : ℕ) (w : World)
      → w.faults ≡ []
      → row.next_retry_at ≡ some at
      → retry_is_pending row.status row.next_retry_at row.retry_count row.max_retries ≡ true
      → process_row croniter row now w ≡ (
          if leb at now && admits row.id w.db
          then (
            ok tt,
            record (enqueued row.id w) {
              db = record w.db {
                tasks =
                    update_rows (has_id row.id) (retried_row w.utc) (enqueued row.id w).db.tasks;
              };
            },
          )
          else (ok tt, w))
  unfolding process_row actions
  process_row_retry row at now w q retry pending = ground (arith, enqueue_task_lem row.id w q)

  -- If croniter answers with later times only, as it documents, then a time that is computed from
  -- `base`, in either mode, lies after it: a tick at that moment does not find the task due again.
  pub compute_next_task_run_later :
      Advances croniter
      → (schedule : String) (mode : ScheduleMode) (seconds base t : ℕ)
      → compute_next_task_run croniter schedule mode seconds base ≡ ok t
      → (base < t) × (scheduled_run_is_due t base false ≡ false)
  unfolding compute_next_task_run scheduled_run_is_due
  compute_next_task_run_later later schedule ScheduleMode.cron seconds base t e =
      let after = later schedule base t e in (after, ground (arith, after))
  compute_next_task_run_later later schedule ScheduleMode.interval seconds base t e =
      elim (Bool-cases (ltb 0 seconds)) [
        | inl some_seconds ↦
            let sum : ok (base + seconds) ≡ ok t = rw some_seconds at e in
            let same : base + seconds ≡ t = cc in
            let after : base < t = ground (arith, same) in (after, ground (arith, after))
        | inr no_seconds ↦
            let after = later schedule base t (rw no_seconds at e) in (after, ground (arith, after))
      ]
