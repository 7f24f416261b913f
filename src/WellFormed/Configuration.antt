-- ===== src/WellFormed/Configuration.antt =====
-- The signals and the configuration of tasks keep the invariant, however they end.
use vodum.Common.{ℕ, Bool, true, Option, none, some, List, [], ◌∷◌, String, refl, arith}
use vodum.Tasks.{Task}
use vodum.State.{
  Keeps, keeps_rules, Keeps-modify, Keeps-pure, Keeps-bind, Keeps-query, Keeps-execute, Action,
  ExpiryMode, Provider, Settings,
}
use vodum.Signals.{
  force_task_run, consume_forced_task_run, consume_auto_enable_dirty, claim, release, is_claimed,
}
use vodum.Config.{
  set_task_enabled, set_tasks_enabled_by_names, set_task_enabled_for_auto_mode,
  set_tasks_enabled_by_names_for_auto_mode, ensure_tasks_enabled, apply_cron_master_switch,
  with_named, on_row, enter_maintenance, enable_desired, remember_desired,
  sync_expiry_tasks_from_settings, prepare_restored_database,
}
use vodum.WellFormed.Rows.{IsTable, IsSafe, safe_rows}
use vodum.WellFormed.Table.{Keeps-safe, Keeps-safe_when}

pub release-Keeps : Keeps IsTable release
unfolding release
release-Keeps = Keeps-modify _ (λ w. refl)

pub claim-Keeps : Keeps IsTable claim
unfolding claim
claim-Keeps = search (keeps_rules, Keeps-modify)

pub is_claimed-Keeps : Keeps IsTable is_claimed
unfolding is_claimed
is_claimed-Keeps = search keeps_rules

pub force_task_run-Keeps : (n : String) → Keeps IsTable (force_task_run n)
unfolding force_task_run
force_task_run-Keeps n = search (keeps_rules, Keeps-modify)

pub consume_forced_task_run-Keeps : (n : String) → Keeps IsTable (consume_forced_task_run n)
unfolding consume_forced_task_run
consume_forced_task_run-Keeps n = search (keeps_rules, Keeps-modify) depth 8

pub consume_auto_enable_dirty-Keeps : Keeps IsTable consume_auto_enable_dirty
unfolding consume_auto_enable_dirty
consume_auto_enable_dirty-Keeps = search (keeps_rules, Keeps-modify) depth 8

pub ruleset signal_rules = (
  keeps_rules, release-Keeps, claim-Keeps, is_claimed-Keeps, force_task_run-Keeps,
  consume_forced_task_run-Keeps, consume_auto_enable_dirty-Keeps,
)

pub ruleset row_rules = (keeps_rules, Keeps-safe, Keeps-safe_when, safe_rows)

pub set_task_enabled-Keeps : (i : ℕ) (e : Bool) → Keeps IsTable (set_task_enabled i e)
unfolding set_task_enabled
set_task_enabled-Keeps i true = search row_rules
set_task_enabled-Keeps i _ = search row_rules

pub set_tasks_enabled_by_names-Keeps :
    (ns : List String) (e : Bool) → Keeps IsTable (set_tasks_enabled_by_names ns e)
unfolding set_tasks_enabled_by_names
set_tasks_enabled_by_names-Keeps [] e = search row_rules
set_tasks_enabled_by_names-Keeps (n ∷ ns) e = search row_rules

pub set_task_enabled_for_auto_mode-Keeps :
    (i : ℕ) (e : Bool) → Keeps IsTable (set_task_enabled_for_auto_mode i e)
unfolding set_task_enabled_for_auto_mode
set_task_enabled_for_auto_mode-Keeps i true = search row_rules
set_task_enabled_for_auto_mode-Keeps i _ = search row_rules

pub set_tasks_enabled_by_names_for_auto_mode-Keeps :
    (ns : List String) (e : Bool) → Keeps IsTable (set_tasks_enabled_by_names_for_auto_mode ns e)
unfolding set_tasks_enabled_by_names_for_auto_mode
set_tasks_enabled_by_names_for_auto_mode-Keeps [] e = search row_rules
set_tasks_enabled_by_names_for_auto_mode-Keeps (n ∷ ns) true = search row_rules
set_tasks_enabled_by_names_for_auto_mode-Keeps (n ∷ ns) _ = search row_rules

pub ensure_tasks_enabled-Keeps : (ns : List String) → Keeps IsTable (ensure_tasks_enabled ns)
unfolding ensure_tasks_enabled
ensure_tasks_enabled-Keeps [] = search row_rules
ensure_tasks_enabled-Keeps (n ∷ ns) = search row_rules

pub apply_cron_master_switch-Keeps : (e : Bool) → Keeps IsTable (apply_cron_master_switch e)
unfolding apply_cron_master_switch
apply_cron_master_switch-Keeps true = search row_rules
apply_cron_master_switch-Keeps _ = search row_rules

pub prepare_restored_database-Keeps : Keeps IsTable prepare_restored_database
unfolding prepare_restored_database
prepare_restored_database-Keeps =
    Keeps-bind _ _
      (Keeps-bind _ _ (Keeps-execute enter_maintenance (λ now db h. h)) (λ _. search row_rules))
      (λ _. Keeps-pure true)

pub with_named-Keeps :
    (n : String) (act : ℕ → Action Unit)
    → ((i : ℕ) → Keeps IsTable (act i))
    → Keeps IsTable (with_named n act)
unfolding with_named
with_named-Keeps n act k = Keeps-bind _ _ (Keeps-query _) go
  where
    go : (row : Option Task) → Keeps IsTable (on_row row act)
    go none = Keeps-pure tt
    go (some t) = k t.id

enable_desired-Keeps : (l : List (String × Bool)) → Keeps IsTable (enable_desired l)
unfolding enable_desired
enable_desired-Keeps [] = search keeps_rules
enable_desired-Keeps ((n, e) ∷ rest) =
    Keeps-bind _ _ (with_named-Keeps n _ (λ i. search (keeps_rules, set_task_enabled-Keeps)))
      (λ _. enable_desired-Keeps rest)

remember_row-IsSafe : (e : Bool) → IsSafe (λ now t. record t { enabled_prev = some e })
remember_row-IsSafe e = record { keeps = λ now t h. ground arith; same_id = λ now t. refl }

remember_desired-Keeps : (l : List (String × Bool)) → Keeps IsTable (remember_desired l)
unfolding remember_desired
remember_desired-Keeps [] = search keeps_rules
remember_desired-Keeps ((n, e) ∷ rest) =
    Keeps-bind _ _ (Keeps-safe _ _ (remember_row-IsSafe e)) (λ _. remember_desired-Keeps rest)

pub sync_expiry_tasks_from_settings-Keeps :
    (m : ExpiryMode) (e : Bool) → Keeps IsTable (sync_expiry_tasks_from_settings m e)
unfolding sync_expiry_tasks_from_settings
sync_expiry_tasks_from_settings-Keeps m true = search (keeps_rules, enable_desired-Keeps)
sync_expiry_tasks_from_settings-Keeps m _ = search (keeps_rules, remember_desired-Keeps)
