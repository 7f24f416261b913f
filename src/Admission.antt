-- ===== src/Admission.antt =====
-- app/tasks_engine.py, `enqueue_task`, and `_enqueue_stream_enforcer` of
-- app/tasks/media_jobs_worker.py: which requests are admitted to the queue of tasks.
use vodum.Common.{
  ℕ, ◌≡◌, refl, Bool, true, false, ◌&&◌, some, List, [], ◌∷◌, String, Option-cases, subst, find_row,
  update_rows, update_rows_idem, arith, if◌then◌else◌, Bool-cases, inl, inr,
}
use vodum.Tasks.{Task, has_id, has_name}
use vodum.State.{Db, World, ok, actions}
use vodum.Signals.{claim, release}
use vodum.Media.{may_queue, enforcer_row, queue_enforcer, enqueue_stream_enforcer}
use vodum.Engine.{
  cron_setting, cron_jobs_enabled, start_task_worker, enqueue_row, is_enabled, enqueue_task,
}

-- The world after an accepted request.
abbrev pub enqueued : ℕ → World → World
enqueued i w = record w {
  db = record w.db {
    tasks = update_rows (λ t. has_id i t && t.enabled) (enqueue_row w.utc) w.db.tasks;
  };
  claimed = true;
}

-- A request is admitted exactly if the master switch is on and the task exists and is enabled.
abbrev pub admits : ℕ → Db → Bool
admits i db = cron_setting db && is_enabled (find_row (has_id i) db.tasks)

pub enqueue_task_lem :
    (i : ℕ) (w : World)
    → w.faults ≡ []
    → enqueue_task i w ≡ (if admits i w.db then (ok true, enqueued i w) else (ok false, w))
unfolding enqueue_task start_task_worker cron_jobs_enabled claim release actions
enqueue_task_lem i w q = ground arith

-- Where no request to SQLite fails: `enqueue_task` answers True exactly if the master switch is on
-- and the task exists and is enabled. Then the row has a queued run and a worker holds the lease;
-- otherwise nothing changes.
pub enqueue_task-admits :
    (i : ℕ) (w : World)
    → w.faults ≡ []
    → ((enqueue_task i w).0 ≡ ok (admits i w.db))
      × ((enqueue_task i w).1 ≡ (if admits i w.db then enqueued i w else w))
enqueue_task-admits i w q = ground (arith, enqueue_task_lem i w q)

enqueue_row_idem : (now : ℕ) (t : Task) → enqueue_row now (enqueue_row now t) ≡ enqueue_row now t
enqueue_row_idem now t = ground arith

-- Asking twice is asking once: a second request, whatever it answers, leaves the tasks as the
-- first has made them, so that no task is queued twice. No request to SQLite fails.
pub enqueue_task_idem :
    (i : ℕ) (w : World)
    → w.faults ≡ []
    → let w' = (enqueue_task i w).1 in (enqueue_task i w').1.db.tasks ≡ w'.db.tasks
enqueue_task_idem i w q = ground (
  arith,
  enqueue_task_lem i w q,
  enqueue_task_lem i (enqueued i w) q,
  update_rows_idem (λ t. has_id i t && t.enabled) (enqueue_row w.utc) (enqueue_row_idem w.utc)
      w.db.tasks,
)

-- A row found by name is found again after an update that keeps the names.
find_name-update :
    (n : String) (p : Task → Bool) (f : Task → Task) (ts : List Task) (t : Task)
    → ((u : Task) → has_name n (f u) ≡ has_name n u)
    → find_row (has_name n) ts ≡ some t
    → find_row (has_name n) (update_rows p f ts) ≡ some (if p t then f t else t)
find_name-update n p f [] t same e = absurd (cc)
find_name-update n p f (u ∷ us) t same e = elim (Bool-cases (has_name n u)) [
  | inl named ↦
      let first : u ≡ t = ground arith in
      subst
        (λ (x : Task).
          find_row (has_name n) (update_rows p f (u ∷ us)) ≡ some (if p x then f x else x))
        first
        (elim (Bool-cases (p u)) [ inl meets ↦ ground (arith, same u) | inr misses ↦ ground arith ])
  | inr other ↦ ground (arith, same u, find_name-update n p f us t same (rw other at e))
]

-- The task of the stream enforcer is queued once: asked again, `_enqueue_stream_enforcer` answers
-- False, whether or not the first call has queued it. No request to SQLite fails.
pub enqueue_stream_enforcer_once :
    (w : World)
    → w.faults ≡ []
    → (enqueue_stream_enforcer (enqueue_stream_enforcer w).1).0 ≡ ok false
unfolding enqueue_stream_enforcer queue_enforcer actions
enqueue_stream_enforcer_once w q =
    elim (Option-cases (find_row (has_name "stream_enforcer") w.db.tasks)) [
      | inl missing ↦ ground arith
      | inr (t, found) ↦ ground (
        arith,
        find_name-update "stream_enforcer" (λ u. has_id t.id u && may_queue u) (enforcer_row w.utc)
            w.db.tasks t (λ u. refl) found,
      )
    ]
