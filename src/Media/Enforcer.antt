-- ===== src/Media/Enforcer.antt =====
-- app/tasks/media_jobs_worker.py, `_enqueue_stream_enforcer`: the task that a run queues when it
-- has seen sessions. It writes the `tasks` table itself and starts no worker.
use vodum.Common.{
  ℕ, Bool, false, not, ◌&&◌, ◌||◌, Option, none, some, ltb, ◌==◌, find_row, count_rows,
  if◌then◌else◌,
}
use vodum.Tasks.{Task, Status, is_running, has_id, has_name}
use vodum.State.{Action, pure, gets, ◌>>=◌, ◌>>◌, query, update_tasks, try_except}
use vodum.Media.Refresh.{Tally}

-- `enabled = 1 AND COALESCE(queued_count, 0) = 0 AND COALESCE(status, '') != 'running'`
abbrev pub may_queue : Task → Bool
may_queue t = t.enabled && t.queued_count == 0 && not (is_running t.status)

abbrev pub enforcer_row : ℕ → Task → Task
enforcer_row now t = record t { queued_count = 1; status = Status.queued; updated_at = now }

-- The UPDATE, with the number of rows that it meets.
unfoldable pub queue_enforcer : Option Task → Action Bool
queue_enforcer none = pure false
queue_enforcer (some t) =
    if not t.enabled || is_running t.status || ltb 0 t.queued_count then pure false else do
      rowcount ← gets (λ w. count_rows (λ u. has_id t.id u && may_queue u) w.db.tasks)
      update_tasks (λ u. has_id t.id u && may_queue u) enforcer_row
      pure (rowcount == 1)

unfoldable pub enqueue_stream_enforcer : Action Bool
unfolding queue_enforcer
enqueue_stream_enforcer = do
  row ← query (λ db. find_row (has_name "stream_enforcer") db.tasks)
  queue_enforcer row

-- What follows the loop in `run`.
unfoldable pub after_run : Tally → Action Bool
after_run t =
    if ltb 0 t.processed && ltb 0 t.sessions_seen
    then try_except enqueue_stream_enforcer (λ _. pure false)
    else pure false
