-- ===== src/Scheduler.antt =====
-- app/core/tasks/scheduler.py: `TaskScheduler`, one tick over the enabled tasks.
use vodum.Common.{
  ℕ, Bool, true, false, not, ◌||◌, ◌&&◌, Option, none, some, List, [], ◌∷◌, String, ltb, leb,
  where_rows, is_some, if◌then◌else◌,
}
use vodum.Tasks.{Task, has_id}
use vodum.State.{Result, Action, pure, lift, ◌>>=◌, ◌>>◌, try_except, query, update_tasks}
use vodum.Signals.{consume_forced_task_run}
use vodum.Rules.{
  Croniter, has_text, retry_is_pending, task_is_busy, scheduled_run_is_due, compute_next_task_run,
}
use vodum.AutoEnable.{run_pass}
use vodum.Engine.{enqueue_task, plan_row}

abbrev pub retried_row : ℕ → Task → Task
retried_row now t = record t { next_retry_at = none; updated_at = now }

abbrev pub advance_row : ℕ → ℕ → Task → Task
advance_row next now t = record t { next_run = some next; updated_at = now }

abbrev pub first_run_row : ℕ → Task → Task
first_run_row now t = record t { last_run = some now; updated_at = now }

-- `WHERE id = ? AND last_run IS NULL`
abbrev pub never_ran : ℕ → Task → Bool
never_ran i t = has_id i t && not (is_some t.last_run)

-- `parse_scheduler_datetime(last_run) or now`
abbrev pub or_now : Option ℕ → ℕ → ℕ
or_now none now = now
or_now (some t) now = t

-- `next_retry_at <= now`; a missing time is not reached, as `retry_is_pending` has required one.
abbrev pub reached : Option ℕ → ℕ → Bool
reached none now = false
reached (some t) now = leb t now

unfoldable pub retry_row_of : Task → ℕ → Action Unit
retry_row_of row now = if not (reached row.next_retry_at now) then pure tt else do
  done ← enqueue_task row.id
  if done then update_tasks (has_id row.id) retried_row else pure tt

module _ (croniter : Croniter) where
  unfoldable pub compute_for : Task → String → ℕ → Result ℕ
  compute_for row schedule base =
      compute_next_task_run croniter schedule row.schedule_mode row.interval_seconds base

  -- `_advance`
  unfoldable pub advance : Task → String → ℕ → Action Unit
  unfolding compute_for
  advance row schedule now = do
    next ← lift (compute_for row schedule now)
    update_tasks (has_id row.id) (advance_row next)

  -- The stored time of the next run, or a new one, which is stored.
  unfoldable pub next_exec : Task → String → ℕ → Option ℕ → Action ℕ
  unfolding compute_for
  next_exec row schedule now (some t) = pure t
  next_exec row schedule now none = do
    next ← lift (compute_for row schedule (or_now row.last_run now))
    update_tasks (has_id row.id) (plan_row next)
    pure next

  unfoldable pub first_run : Task → String → ℕ → ℕ → Action Unit
  unfolding advance
  first_run row schedule now next = if ltb now next then pure tt else do
    done ← enqueue_task row.id
    if not done
        then pure tt
        else do advance row schedule now; update_tasks (never_ran row.id) first_run_row

  unfoldable pub later_run : Task → String → ℕ → ℕ → Action Unit
  unfolding advance
  later_run row schedule now next = do
    forced ← consume_forced_task_run row.name
    if not (scheduled_run_is_due next now forced)
        then pure tt
        else do done ← enqueue_task row.id; if not done then pure tt else advance row schedule now

  unfoldable pub scheduled_row : Task → Option String → ℕ → Action Unit
  unfolding next_exec first_run later_run
  scheduled_row row none now = pure tt
  scheduled_row row (some schedule) now =
      if not (has_text (some schedule)) || task_is_busy row.status row.queued_count
      then pure tt
      else do
        next ← next_exec row schedule now row.next_run
        if not (is_some row.last_run)
            then first_run row schedule now next
            else later_run row schedule now next

  -- `_process_row`: `row` is what the query of the tick read.
  unfoldable pub process_row : Task → ℕ → Action Unit
  unfolding retry_row_of scheduled_row
  process_row row now =
      if retry_is_pending row.status row.next_retry_at row.retry_count row.max_retries
      then retry_row_of row now
      else scheduled_row row row.schedule now

  unfoldable pub process_rows : List Task → ℕ → Action Unit
  process_rows [] now = pure tt
  process_rows (row ∷ rows) now = process_row row now >> process_rows rows now

  unfoldable pub tick_rows : Option (List Task) → ℕ → Action Bool
  tick_rows none now = pure false
  tick_rows (some rows) now = process_rows rows now >> pure true

  unfoldable pub tick : ℕ → Bool → Action Bool
  unfolding process_rows tick_rows
  tick now run_auto_enable = do
    if run_auto_enable then run_pass else pure tt
    rows ← try_except (query (λ db. some (where_rows (λ t. t.enabled) db.tasks))) (λ _. pure none)
    tick_rows rows now
