-- ===== src/Config.antt =====
-- app/core/tasks/configuration.py: `TaskConfigurationService`, which stores whether tasks are
-- enabled. A flag is 0 or 1, as `_enabled` makes it.
use vodum.Common.{
  ℕ, Bool, true, false, ◌||◌, Option, none, some, List, [], ◌∷◌, String, find_row, if◌then◌else◌,
}
use vodum.Tasks.{Task, Status, has_id, has_name}
use vodum.State.{
  Db, ExpiryMode, disable, warn_only, warn_then_disable, Action, pure, ◌>>=◌, ◌>>◌, query, execute,
  update_tasks,
}

-- `status='disabled' OR status IS NULL OR TRIM(status)=''` becomes 'idle'.
abbrev pub enabled_status : Status → Status
enabled_status Status.disabled = Status.idle
enabled_status Status.unset = Status.idle
enabled_status s = s

-- `CASE WHEN status IN ('running','queued') THEN status ELSE 'disabled' END`
abbrev pub disabled_status : Status → Status
disabled_status Status.running = Status.running
disabled_status Status.queued = Status.queued
disabled_status s = Status.disabled

-- `CASE WHEN e=1 THEN 'idle' ELSE 'disabled' END`
abbrev pub idle_or_disabled : Bool → Status
idle_or_disabled e = if e then Status.idle else Status.disabled

-- `CASE WHEN enabled_prev IS NULL THEN enabled ELSE enabled_prev END`
abbrev pub remembered : Task → Bool
remembered t = elim t.enabled_prev [ none ↦ t.enabled | some e ↦ e ]

-- `WHERE name IN (…)`
abbrev pub name_in : List String → Task → Bool
name_in [] t = false
name_in (n ∷ ns) t = has_name n t || name_in ns t

abbrev pub all_rows : Task → Bool
all_rows t = true

-- The row after each kind of UPDATE, at SQLite's time `now`.
abbrev pub enable_row : ℕ → Task → Task
enable_row now t = record t {
  enabled = true;
  status = Status.idle;
  last_error = none;
  next_run = none;
  retry_count = 0;
  next_retry_at = none;
  last_attempt_at = none;
  updated_at = now;
}

abbrev pub disable_row : ℕ → Task → Task
disable_row now t = record t { enabled = false; status = Status.disabled; updated_at = now }

abbrev pub set_row : Bool → ℕ → Task → Task
set_row e now t = record t { enabled = e; status = idle_or_disabled e; updated_at = now }

abbrev pub auto_enable_row : ℕ → Task → Task
auto_enable_row now t = record t {
  enabled = true;
  status = enabled_status t.status;
  updated_at = now;
}

abbrev pub auto_disable_row : ℕ → Task → Task
auto_disable_row now t = record t {
  enabled = false;
  status = disabled_status t.status;
  updated_at = now;
}

abbrev pub switch_off_row : ℕ → Task → Task
switch_off_row now t = record t {
  enabled_prev = some (remembered t);
  enabled = false;
  status = Status.disabled;
  updated_at = now;
}

abbrev pub switch_on_row : ℕ → Task → Task
switch_on_row now t = record t {
  enabled = remembered t;
  status = idle_or_disabled (remembered t);
  enabled_prev = none;
  updated_at = now;
}

unfoldable pub set_task_enabled : ℕ → Bool → Action Bool
set_task_enabled i true = update_tasks (has_id i) enable_row >> pure true
set_task_enabled i false = update_tasks (has_id i) disable_row >> pure true

unfoldable pub set_tasks_enabled_by_names : List String → Bool → Action Bool
set_tasks_enabled_by_names [] e = pure false
set_tasks_enabled_by_names (n ∷ ns) e = update_tasks (name_in (n ∷ ns)) (set_row e) >> pure true

unfoldable pub set_task_enabled_for_auto_mode : ℕ → Bool → Action Bool
set_task_enabled_for_auto_mode i true = update_tasks (has_id i) auto_enable_row >> pure true
set_task_enabled_for_auto_mode i false = update_tasks (has_id i) auto_disable_row >> pure true

unfoldable pub set_tasks_enabled_by_names_for_auto_mode : List String → Bool → Action Bool
set_tasks_enabled_by_names_for_auto_mode [] e = pure false
set_tasks_enabled_by_names_for_auto_mode (n ∷ ns) true =
    update_tasks (name_in (n ∷ ns)) auto_enable_row >> pure true
set_tasks_enabled_by_names_for_auto_mode (n ∷ ns) false =
    update_tasks (name_in (n ∷ ns)) auto_disable_row >> pure true

unfoldable pub ensure_tasks_enabled : List String → Action Bool
ensure_tasks_enabled [] = pure false
ensure_tasks_enabled (n ∷ ns) = update_tasks (name_in (n ∷ ns)) auto_enable_row >> pure true

unfoldable pub apply_cron_master_switch : Bool → Action Bool
apply_cron_master_switch false = update_tasks all_rows switch_off_row >> pure true
apply_cron_master_switch true = update_tasks all_rows switch_on_row >> pure true

-- The dict `desired`, in its order.
abbrev pub desired : ExpiryMode → List (String × Bool)
desired disable = ("disable_expired_users", true) ∷ ("expired_subscription_manager", false) ∷ []
desired warn_only = ("disable_expired_users", false) ∷ ("expired_subscription_manager", true) ∷ []
desired warn_then_disable =
    ("disable_expired_users", false) ∷ ("expired_subscription_manager", true) ∷ []
desired _ = ("disable_expired_users", false) ∷ ("expired_subscription_manager", false) ∷ []

-- `SELECT id FROM tasks WHERE name=?`, and a call on the id if there is one.
unfoldable pub on_row : Option Task → (ℕ → Action Unit) → Action Unit
on_row none act = pure tt
on_row (some t) act = act t.id

unfoldable pub with_named : String → (ℕ → Action Unit) → Action Unit
unfolding on_row
with_named n act = do row ← query (λ db. find_row (has_name n) db.tasks); on_row row act

unfoldable pub enable_desired : List (String × Bool) → Action Unit
unfolding with_named set_task_enabled
enable_desired [] = pure tt
enable_desired ((n, e) ∷ rest) =
    with_named n (λ i. set_task_enabled i e >> pure tt) >> enable_desired rest

unfoldable pub remember_desired : List (String × Bool) → Action Unit
remember_desired [] = pure tt
remember_desired ((n, e) ∷ rest) =
    update_tasks (has_name n) (λ now t. record t { enabled_prev = some e }) >> remember_desired rest

unfoldable pub sync_expiry_tasks_from_settings : ExpiryMode → Bool → Action Bool
unfolding enable_desired remember_desired
sync_expiry_tasks_from_settings mode true = enable_desired (desired mode) >> pure true
sync_expiry_tasks_from_settings mode false = remember_desired (desired mode) >> pure true

abbrev pub enter_maintenance : ℕ → Db → Db
enter_maintenance now db = record db {
  settings = elim db.settings [
    | none ↦ none
    | some s ↦ some (record s { maintenance_mode = true })
  ];
}

-- The restored database is the one that the action runs on.
unfoldable pub prepare_restored_database : Action Bool
prepare_restored_database =
    execute enter_maintenance >> update_tasks all_rows switch_off_row >> pure true
