-- ===== src/WellFormed/Rows.antt =====
-- The invariant of the `tasks` table, and each UPDATE of a row against it.
use vodum.Common.{ℕ, ◌≤◌, ◌≡◌, refl, Bool, false, none, List, [], ◌∷◌, All, find_row, arith}
use vodum.Tasks.{Task, Status, Error, has_id}
use vodum.Config.{
  enable_row, disable_row, set_row, auto_enable_row, auto_disable_row, switch_off_row,
  switch_on_row,
}
use vodum.Engine.{
  enqueue_row, reenable_row, unstick_row, request_row, queue_failed_row, error_row, success_row,
  plan_row, running_row, failsafe_row,
}
use vodum.Scheduler.{retried_row, advance_row, first_run_row}
use vodum.Runtime.{recover_row}
use vodum.Media.{enforcer_row}

-- A row with status "disabled" is not enabled, at most one run is queued, and no more retries are
-- counted than are allowed.
pub record IsWf (t : Task) : Type 0 where
  pub off : t.status ≡ Status.disabled → t.enabled ≡ false
  pub single : t.queued_count ≤ 1
  pub bounded : t.retry_count ≤ t.max_retries

-- `id INTEGER PRIMARY KEY`
abbrev pub Distinct : List Task → Type 0
Distinct [] = Unit
Distinct (t ∷ ts) = (find_row (has_id t.id) ts ≡ none) × Distinct ts

pub record IsTable (ts : List Task) : Type 0 where
  pub rows : All IsWf ts
  pub distinct : Distinct ts

-- An update that keeps the invariant of the row, and its key.
pub record IsSafe (f : ℕ → Task → Task) : Type 0 where
  pub keeps : (now : ℕ) (t : Task) → IsWf t → IsWf (f now t)
  pub same_id : (now : ℕ) (t : Task) → (f now t).id ≡ t.id

pub enable_row-IsSafe : IsSafe enable_row
enable_row-IsSafe = record { keeps = λ now t h. ground arith; same_id = λ now t. refl }

pub disable_row-IsSafe : IsSafe disable_row
disable_row-IsSafe = record { keeps = λ now t h. ground arith; same_id = λ now t. refl }

pub set_row-IsSafe : (e : Bool) → IsSafe (set_row e)
set_row-IsSafe e = record { keeps = λ now t h. ground arith; same_id = λ now t. refl }

pub auto_enable_row-IsSafe : IsSafe auto_enable_row
auto_enable_row-IsSafe = record { keeps = λ now t h. ground arith; same_id = λ now t. refl }

pub auto_disable_row-IsSafe : IsSafe auto_disable_row
auto_disable_row-IsSafe = record { keeps = λ now t h. ground arith; same_id = λ now t. refl }

pub switch_off_row-IsSafe : IsSafe switch_off_row
switch_off_row-IsSafe = record { keeps = λ now t h. ground arith; same_id = λ now t. refl }

pub switch_on_row-IsSafe : IsSafe switch_on_row
switch_on_row-IsSafe = record { keeps = λ now t h. ground arith; same_id = λ now t. refl }

pub enqueue_row-IsSafe : IsSafe enqueue_row
enqueue_row-IsSafe = record { keeps = λ now t h. ground arith; same_id = λ now t. refl }

pub reenable_row-IsSafe : IsSafe reenable_row
reenable_row-IsSafe = record { keeps = λ now t h. ground arith; same_id = λ now t. refl }

pub unstick_row-IsSafe : IsSafe unstick_row
unstick_row-IsSafe = record { keeps = λ now t h. ground arith; same_id = λ now t. refl }

pub request_row-IsSafe : IsSafe request_row
request_row-IsSafe = record { keeps = λ now t h. ground arith; same_id = λ now t. refl }

pub queue_failed_row-IsSafe : (e : Error) → IsSafe (queue_failed_row e)
queue_failed_row-IsSafe e = record { keeps = λ now t h. ground arith; same_id = λ now t. refl }

pub error_row-IsSafe : (e : Error) → IsSafe (error_row e)
error_row-IsSafe e = record { keeps = λ now t h. ground arith; same_id = λ now t. refl }

pub success_row-IsSafe : IsSafe success_row
success_row-IsSafe = record { keeps = λ now t h. ground arith; same_id = λ now t. refl }

pub plan_row-IsSafe : (next : ℕ) → IsSafe (plan_row next)
plan_row-IsSafe next = record { keeps = λ now t h. ground arith; same_id = λ now t. refl }

pub running_row-IsSafe : IsSafe running_row
running_row-IsSafe = record { keeps = λ now t h. ground arith; same_id = λ now t. refl }

pub failsafe_row-IsSafe : IsSafe failsafe_row
failsafe_row-IsSafe = record { keeps = λ now t h. ground arith; same_id = λ now t. refl }

pub retried_row-IsSafe : IsSafe retried_row
retried_row-IsSafe = record { keeps = λ now t h. ground arith; same_id = λ now t. refl }

pub advance_row-IsSafe : (next : ℕ) → IsSafe (advance_row next)
advance_row-IsSafe next = record { keeps = λ now t h. ground arith; same_id = λ now t. refl }

pub first_run_row-IsSafe : IsSafe first_run_row
first_run_row-IsSafe = record { keeps = λ now t h. ground arith; same_id = λ now t. refl }

pub recover_row-IsSafe : IsSafe recover_row
recover_row-IsSafe = record { keeps = λ now t h. ground arith; same_id = λ now t. refl }

pub enforcer_row-IsSafe : IsSafe enforcer_row
enforcer_row-IsSafe = record { keeps = λ now t h. ground arith; same_id = λ now t. refl }

pub ruleset safe_rows = (
  enforcer_row-IsSafe, enable_row-IsSafe, disable_row-IsSafe, set_row-IsSafe,
  auto_enable_row-IsSafe, auto_disable_row-IsSafe, switch_off_row-IsSafe, switch_on_row-IsSafe,
  enqueue_row-IsSafe, reenable_row-IsSafe, unstick_row-IsSafe, request_row-IsSafe,
  queue_failed_row-IsSafe, error_row-IsSafe, success_row-IsSafe, plan_row-IsSafe,
  running_row-IsSafe, failsafe_row-IsSafe, retried_row-IsSafe, advance_row-IsSafe,
  first_run_row-IsSafe, recover_row-IsSafe,
)
