-- ===== src/AutoEnable.antt =====
-- app/core/tasks/auto_enable.py and auto_enable_rules.py: `TaskAutoEnableService`, which enables
-- and disables tasks by what the tables hold.
use vodum.Common.{
  ℕ, Bool, true, false, ◌&&◌, ◌||◌, Option, none, some, List, [], ◌∷◌, String, ltb, ◌==◌,
  count_rows, if◌then◌else◌,
}
use vodum.State.{
  Settings, Server, Provider, plex, jellyfin, other, ExpiryMode, warn_only, warn_then_disable,
  Action, pure, ◌>>=◌, ◌>>◌, try_except, query,
}
use vodum.Signals.{force_task_run}
use vodum.Config.{
  set_task_enabled_for_auto_mode, set_tasks_enabled_by_names_for_auto_mode, with_named,
  sync_expiry_tasks_from_settings,
}

abbrev pub monitoring_tasks : List String
monitoring_tasks = "monitor_enqueue_refresh" ∷ "media_jobs_worker" ∷ []

unfoldable pub enabled_from_count : ℕ → Bool
enabled_from_count n = ltb 0 n

abbrev pub is_provider : Provider → Provider → Bool
is_provider plex plex = true
is_provider jellyfin jellyfin = true
is_provider other other = true
is_provider _ _ = false

-- `JOIN servers s ON s.id = mj.server_id WHERE … LOWER(TRIM(s.type)) = ?`
abbrev pub job_of : Provider → List Server → ℕ → Bool
job_of p [] i = false
job_of p (s ∷ ss) i = (s.id == i && is_provider p s.type) || job_of p ss i

unfoldable pub set_named_task : String → Bool → Action Unit
unfolding with_named
set_named_task n e = with_named n (λ i. set_task_enabled_for_auto_mode i e >> pure tt)

unfoldable pub monitoring : Action Unit
unfolding enabled_from_count
monitoring = do
  count ←
      query
        (λ db. count_rows (λ s. is_provider plex s.type || is_provider jellyfin s.type) db.servers)
  set_tasks_enabled_by_names_for_auto_mode monitoring_tasks (enabled_from_count count)
  pure tt

unfoldable pub sync_provider : Provider → String → Action Unit
unfolding set_named_task enabled_from_count
sync_provider p n = do
  count ← query (λ db. count_rows (λ s. is_provider p s.type) db.servers)
  set_named_task n (enabled_from_count count)

unfoldable pub sync_providers : Action Unit
unfolding sync_provider
sync_providers = sync_provider plex "sync_plex" >> sync_provider jellyfin "sync_jellyfin"

abbrev access_task : Provider → String
access_task plex = "apply_plex_access_updates"
access_task _ = "apply_jellyfin_access_updates"

unfoldable pub access_worker : Provider → Action Unit
unfolding set_named_task enabled_from_count
access_worker p = do
  server_up ← query (λ db. count_rows (λ s. is_provider p s.type && s.up) db.servers)
  pending ← query (λ db. count_rows (job_of p db.servers) db.pending_jobs)
  set_named_task (access_task p) (enabled_from_count server_up || enabled_from_count pending)

unfoldable pub stream_enforcer : Action Unit
unfolding set_named_task enabled_from_count
stream_enforcer = do
  policies ← query (λ db. db.enabled_policies)
  if enabled_from_count policies then set_named_task "stream_enforcer" true else pure tt

-- `int(settings["enable_cron_jobs"] or 1)`, and whether `_enabled` makes 1 of it.
unfoldable pub cron_flag : Option ℕ → Bool
cron_flag none = true
cron_flag (some n) = n == 0 || n == 1

abbrev pub warns : ExpiryMode → Bool
warns warn_only = true
warns warn_then_disable = true
warns _ = false

unfoldable pub sync_expiry : Option Settings → Action Unit
unfolding cron_flag
sync_expiry none = pure tt
sync_expiry (some s) = do
  sync_expiry_tasks_from_settings s.expiry_mode (cron_flag s.enable_cron_jobs)
  if warns s.expiry_mode then force_task_run "expired_subscription_manager" else pure tt

unfoldable pub expiry : Action Unit
unfolding sync_expiry
expiry = do settings ← query (λ db. db.settings); sync_expiry settings

-- The loop over the steps: a step that raises is logged and passed over.
unfoldable pub guarded_steps : List (Action Unit) → Action Unit
guarded_steps [] = pure tt
guarded_steps (step ∷ steps) = try_except step (λ _. pure tt) >> guarded_steps steps

unfoldable pub run_pass : Action Unit
unfolding guarded_steps
run_pass = guarded_steps (
    sync_providers
    ∷ monitoring
    ∷ stream_enforcer
    ∷ access_worker plex
    ∷ access_worker jellyfin
    ∷ expiry
    ∷ [])
