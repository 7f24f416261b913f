-- ===== src/Worker.antt =====
-- app/tasks_engine.py: `_task_worker`, the loop that takes the queued tasks one by one.
use vodum.Common.{
  ℕ, zero, suc, Bool, true, false, ◌&&◌, ◌||◌, Option, none, some, List, [], ◌∷◌, String, str_eq,
  ltb, ◌==◌, if◌then◌else◌,
}
use vodum.Tasks.{Task}
use vodum.State.{Action, pure, ◌>>=◌, ◌>>◌, try_except, try_finally, query}
use vodum.Signals.{release}
use vodum.Rules.{Croniter}
use vodum.Engine.{is_waiting, kick_worker_if_needed}
use vodum.Runner.{Loader, run}

-- `CASE name WHEN … END`
unfoldable pub priority : String → ℕ
priority name =
    if str_eq name "monitor_enqueue_refresh"
    then 1
    else if str_eq name "media_jobs_worker"
    then 2
    else if str_eq name "stream_enforcer"
    then 3
    else if str_eq name "monitor_collect_sessions"
    then 99
    else 10

-- `ORDER BY priority ASC, updated_at ASC, id ASC`
unfoldable pub comes_before : Task → Task → Bool
comes_before t u =
    ltb (priority t.name) (priority u.name)
    || (priority t.name == priority u.name
        && (ltb t.updated_at u.updated_at || (t.updated_at == u.updated_at && ltb t.id u.id)))

unfoldable pub better : Task → Option Task → Task
better t none = t
better t (some u) = if comes_before u t then u else t

-- `WHERE queued_count > 0 AND enabled = 1 … LIMIT 1`
unfoldable pub next_queued : List Task → Option Task
unfolding better
next_queued [] = none
next_queued (t ∷ ts) = if is_waiting t then some (better t (next_queued ts)) else next_queued ts

module _ (croniter : Croniter) (loader : Loader) where
  -- The round after a row was fetched. An exception of the run is logged only.
  unfoldable pub work_on : Action Bool → Option Task → Action Bool
  work_on rest none = pure true
  work_on rest (some t) = try_except (run croniter loader t.id >> pure tt) (λ _. pure tt) >> rest

  -- `while True`, on fuel: `false` says that the fuel ran out. A fetch that raises ends the loop.
  unfoldable pub work : ℕ → Action Bool
  unfolding work_on
  work zero = pure false
  work (suc fuel) = do
    row ← try_except (query (λ db. next_queued db.tasks)) (λ _. pure none)
    work_on (work fuel) row

  -- The worker always gives the lease back, and starts another if tasks are left.
  unfoldable pub task_worker : ℕ → Action Bool
  task_worker fuel = try_finally (work fuel) (release >> kick_worker_if_needed)
