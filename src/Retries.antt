-- ===== src/Retries.antt =====
-- app/tasks_engine.py, `_mark_task_retry_or_error`, with app/core/tasks/scheduler_rules.py: the
-- retries of a task that fails.
use vodum.Common.{
  ℕ, ◌+◌, ◌≤◌, ◌≡◌, refl, Bool, true, false, none, some, [], ltb, find_row, update_rows, arith,
  if◌then◌else◌, Bool-cases, inl, inr,
}
use vodum.Tasks.{Task, Status, Error, has_id}
use vodum.State.{World, actions}
use vodum.Rules.{retry_modifier_for_attempt, retry_is_pending}
use vodum.Engine.{retry_row, error_row, store_failure, mark_task_retry_or_error}
use vodum.WellFormed.{find_row-update_self}

-- The row of a task after a failure at SQLite's time `now`.
abbrev pub failed : Error → ℕ → Task → Task
failed e now t =
    if ltb t.retry_count t.max_retries
    then retry_row e (t.retry_count + 1) (retry_modifier_for_attempt (t.retry_count + 1)) now t
    else error_row e now t

stored_failure :
    (i : ℕ) (e : Error) (w : World) (t : Task)
    → w.faults ≡ []
    → find_row (has_id i) w.db.tasks ≡ some t
    → (mark_task_retry_or_error i e w).1.db.tasks
      ≡ update_rows
          (has_id i)
          (if ltb t.retry_count t.max_retries
            then retry_row e
                (t.retry_count + 1)
                (retry_modifier_for_attempt (t.retry_count + 1))
                w.utc
            else error_row e w.utc)
          w.db.tasks
unfolding mark_task_retry_or_error store_failure actions
stored_failure i e w t q found = ground arith

pub stored_failure-faults :
    (i : ℕ) (e : Error) (w : World) (t : Task)
    → w.faults ≡ []
    → find_row (has_id i) w.db.tasks ≡ some t
    → (mark_task_retry_or_error i e w).1.faults ≡ []
unfolding mark_task_retry_or_error store_failure actions
stored_failure-faults i e w t q found = ground arith

pub stored_failure-found :
    (i : ℕ) (e : Error) (w : World) (t : Task)
    → w.faults ≡ []
    → find_row (has_id i) w.db.tasks ≡ some t
    → find_row (has_id i) (mark_task_retry_or_error i e w).1.db.tasks ≡ some (failed e w.utc t)
stored_failure-found i e w t q found = elim (Bool-cases (ltb t.retry_count t.max_retries)) [
  | inl more ↦
      rw (stored_failure i e w t q found, more) (find_row-update_self i _ _ t (λ u. refl) found)
  | inr spent ↦
      rw (stored_failure i e w t q found, spent) (find_row-update_self i _ _ t (λ u. refl) found)
]

-- The delays of the retries lie between one minute and half an hour, and never shrink.
pub retry_modifier_mono :
    (m n : ℕ)
    → m ≤ n
    → (60 ≤ retry_modifier_for_attempt m)
      × (retry_modifier_for_attempt m ≤ retry_modifier_for_attempt n)
      × (retry_modifier_for_attempt n ≤ 1800)
unfolding retry_modifier_for_attempt
retry_modifier_mono m n h = (ground arith, ground arith, ground arith)

-- Whether the task is tried again: one more retry is counted, with a time between one minute and
-- half an hour ahead; or there is no time and the count stays.
abbrev pub IsPlan : Bool → ℕ → Task → Task → Type 0
IsPlan true now t t' =
    (t'.retry_count ≡ t.retry_count + 1)
    × (at : ℕ) × (t'.next_retry_at ≡ some at)
    × (now + 60 ≤ at)
    × (at ≤ now + 1800)
IsPlan false now t t' = (t'.retry_count ≡ t.retry_count) × (t'.next_retry_at ≡ none)

-- What a failure must leave in the row: the error, the status, and the plan of a retry as long as
-- there are retries left.
pub record IsFailure (e : Error) (now : ℕ) (t t' : Task) : Type 0 where
  pub told : t'.last_error ≡ some e
  pub stopped : t'.status ≡ (if ltb 0 t.queued_count then Status.queued else Status.error)
  pub plan : IsPlan (ltb t.retry_count t.max_retries) now t t'
  pub kept : (t'.queued_count ≡ t.queued_count) × (t'.enabled ≡ t.enabled)

failed-IsPlan :
    (e : Error) (now : ℕ) (t : Task)
    → IsPlan (ltb t.retry_count t.max_retries) now t (failed e now t)
failed-IsPlan e now t = elim (Bool-cases (ltb t.retry_count t.max_retries)) [
  | inl more ↦ rw more (
      let delay = retry_modifier_mono (t.retry_count + 1) (t.retry_count + 1) (omega arith) in
      (
        refl,
        now + retry_modifier_for_attempt (t.retry_count + 1),
        ground arith,
        omega (arith, delay.0),
        omega (arith, delay.2),
      ))
  | inr spent ↦ rw spent (refl, refl)
]

failed-IsFailure : (e : Error) (now : ℕ) (t : Task) → IsFailure e now t (failed e now t)
failed-IsFailure e now t = record {
  told = ground arith;
  stopped = ground arith;
  plan = failed-IsPlan e now t;
  kept = (ground arith, ground arith);
}

-- Where no request fails, the row of a failed task holds the error, and the status "queued" if a
-- run is queued and "error" if not. While retries are left one more is counted and planned between
-- one minute and half an hour ahead; else the count stays and nothing is planned.
pub mark_task_retry_or_error-IsFailure :
    (i : ℕ) (e : Error) (w : World) (t : Task)
    → w.faults ≡ []
    → find_row (has_id i) w.db.tasks ≡ some t
    → (t' : Task) × (find_row (has_id i) (mark_task_retry_or_error i e w).1.db.tasks ≡ some t')
      × IsFailure e w.utc t t'
mark_task_retry_or_error-IsFailure i e w t q found =
    (failed e w.utc t, stored_failure-found i e w t q found, failed-IsFailure e w.utc t)

-- A task with no queued run fails with exactly one retry left: the code stores the time of that
-- retry, but the row that it leaves is not one that the scheduler takes as waiting for a retry,
-- so that the last retry never starts. No request fails.
pub last_retry_is_lost :
    (i : ℕ) (e : Error) (w : World) (t : Task)
    → w.faults ≡ []
    → find_row (has_id i) w.db.tasks ≡ some t
    → t.queued_count ≡ 0
    → t.retry_count + 1 ≡ t.max_retries
    → (t' : Task) × (find_row (has_id i) (mark_task_retry_or_error i e w).1.db.tasks ≡ some t')
      × (t'.next_retry_at ≡ some (w.utc + retry_modifier_for_attempt t.max_retries))
      × (retry_is_pending t'.status t'.next_retry_at t'.retry_count t'.max_retries ≡ false)
unfolding retry_is_pending
last_retry_is_lost i e w t q found idle last =
    (failed e w.utc t, stored_failure-found i e w t q found, ground arith, ground arith)

pub failed-waits :
    (e : Error) (now : ℕ) (t : Task)
    → t.queued_count ≡ 0
    → t.retry_count + 2 ≤ t.max_retries
    → let t' = failed e now t in
      retry_is_pending t'.status t'.next_retry_at t'.retry_count t'.max_retries ≡ true
unfolding retry_is_pending
failed-waits e now t idle more = ground arith
