-- ===== src/Skew.antt =====
-- The time of a retry is stored by SQLite's clock, in UTC (app/tasks_engine.py), and compared with
-- the local clock (app/core/tasks/runtime.py, scheduler.py).
use vodum.Common.{ℕ, ◌+◌, ◌≤◌, ◌≡◌, true, some, [], find_row, update_rows, arith}
use vodum.Tasks.{Task, Error, has_id}
use vodum.State.{World}
use vodum.Rules.{Croniter, retry_modifier_for_attempt}
use vodum.Engine.{mark_task_retry_or_error}
use vodum.Scheduler.{retried_row, process_row}
use vodum.Admission.{enqueued, admits}
use vodum.Retries.{
  failed, stored_failure-found, stored_failure-faults, failed-waits, retry_modifier_mono,
}
use vodum.Ticks.{process_row_retry}

-- Where the local clock is half an hour or more ahead of UTC, a task that has just failed, with
-- two retries or more left and no run queued, is retried by a tick at that same moment: the delay
-- of the retry has no effect. The queue admits the task and no request fails.
pub retry_skew :
    (croniter : Croniter) (i : ℕ) (e : Error) (w : World) (t : Task)
    → w.faults ≡ []
    → find_row (has_id i) w.db.tasks ≡ some t
    → t.queued_count ≡ 0
    → t.retry_count + 2 ≤ t.max_retries
    → w.utc + 1800 ≤ w.local
    → admits t.id (mark_task_retry_or_error i e w).1.db ≡ true
    → let v = (mark_task_retry_or_error i e w).1 in
      (row : Task) × (find_row (has_id i) v.db.tasks ≡ some row)
      × ((process_row croniter row w.local v).1.db.tasks
          ≡ update_rows (has_id row.id) (retried_row v.utc) (enqueued row.id v).db.tasks)
retry_skew croniter i e w t q found idle more skew admitted =
    let v = (mark_task_retry_or_error i e w).1 in
    let row = failed e w.utc t in
    let at = w.utc + retry_modifier_for_attempt (t.retry_count + 1) in
    (
      row,
      stored_failure-found i e w t q found,
      ground (
        arith,
        process_row_retry croniter row at w.local v (stored_failure-faults i e w t q found)
            (ground arith) (failed-waits e w.utc t idle more),
        (retry_modifier_mono (t.retry_count + 1) (t.retry_count + 1) (omega arith)).2,
      ),
    )
