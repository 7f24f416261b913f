-- ===== src/Recovery.antt =====
-- app/core/tasks/runtime.py, `recover_state`, and app/tasks_engine.py, `recover_stuck_tasks`: what
-- a restart and the watchdog do to tasks that were left running.
use vodum.Common.{
  ◌+◌, ◌<◌, ◌≤◌, ◌≢◌, true, none, ℕ, ◌≡◌, false, ◌&&◌, ◌||◌, List, [], ◌∷◌, ltb, count_rows,
  update_rows, arith, if◌then◌else◌,
}
use vodum.Tasks.{Task, Status, is_running, is_queued}
use vodum.State.{World, actions}
use vodum.Signals.{claim, release, is_claimed}
use vodum.Engine.{is_waiting, kick_worker_if_needed, start_task_worker}
use vodum.Runtime.{is_recoverable, recover_row, recover_state}

-- What the watchdog must leave in a row: one that runs and has not changed within the limit is idle, with
-- an error and the time of the change, and nothing else of it changes; another row stays as it is.
pub record IsUnstuck (now limit : ℕ) (t t' : Task) : Type 0 where
  pub idle : is_running t.status ≡ true → t.updated_at + limit < now → t'.status ≡ Status.idle
  pub noted : is_running t.status ≡ true → t.updated_at + limit < now → t'.last_error ≢ none
  pub kept :
      t' ≡ record t { status = t'.status; last_error = t'.last_error; updated_at = t'.updated_at }
  pub waits : is_running t.status ≡ false → t' ≡ t
  pub works : now ≤ t.updated_at + limit → t' ≡ t

-- Row by row.
abbrev pub All₂ : (Task → Task → Type 0) → List Task → List Task → Type 0
All₂ R [] [] = Unit
All₂ R (t ∷ ts) (u ∷ us) = R t u × All₂ R ts us
All₂ R _ _ = ⊥

-- What the restart must leave in a row: an enabled task does not run; an enabled one that ran,
-- waited or was idle is queued exactly if it has a queued run; only the status and the time of the
-- change are written, and nothing where the task had failed or was disabled.
pub record IsRecovered (t t' : Task) : Type 0 where
  pub stopped : t'.enabled && is_running t'.status ≡ false
  pub queue :
      is_recoverable t && t'.enabled && is_queued t'.status
      ≡ is_recoverable t && t.enabled && ltb 0 t.queued_count
  pub kept : t' ≡ (
      if is_recoverable t then record t { status = t'.status; updated_at = t'.updated_at } else t)

IsRecovered-rows :
    (now : ℕ) (ts : List Task)
    → All₂ IsRecovered ts (update_rows is_recoverable (recover_row now) ts)
IsRecovered-rows now [] = tt
IsRecovered-rows now (t ∷ ts) = (
  record { stopped = ground arith; queue = ground arith; kept = ground arith },
  IsRecovered-rows now ts,
)

-- Where no request fails, the restart leaves no enabled task running; a task that ran, waited or was
-- idle is queued exactly if it is enabled and has a queued run; nothing but the status and the time
-- of the change is written, and other rows stay. It takes the lease for a worker, if nobody holds it,
-- exactly if a run is still queued for an enabled task.
pub recover_state_lem :
    (w : World)
    → w.faults ≡ []
    → let w' = (recover_state w).1 in
      All₂ IsRecovered w.db.tasks w'.db.tasks
      × (w'.claimed ≡ w.claimed || ltb 0 (count_rows is_waiting w'.db.tasks))
unfolding recover_state kick_worker_if_needed start_task_worker is_claimed claim release actions
recover_state_lem w q = (ground (arith, IsRecovered-rows w.utc w.db.tasks), ground arith)
