-- ===== src/Samples.antt =====
-- A small database, clocks and task functions, on which the examples run the code.
use vodum.Common.{ℕ, ◌+◌, Bool, true, false, none, some, List, [], ◌∷◌, String}
use vodum.Tasks.{Task, Status, ScheduleMode, runtime_error}
use vodum.State.{Db, Settings, ExpiryMode, plex, World, ok, pure, raise}
use vodum.Rules.{Croniter, nothing}
use vodum.Runner.{Job, Loader}

abbrev pub new_task : ℕ → String → Bool → Status → ℕ → Task
new_task id name enabled status queued = record {
  id = id;
  name = name;
  schedule = some "0 * * * *";
  schedule_mode = ScheduleMode.cron;
  interval_seconds = 0;
  enabled = enabled;
  enabled_prev = none;
  status = status;
  last_run = some 900;
  next_run = some 1000;
  last_error = none;
  queued_count = queued;
  retry_count = 0;
  max_retries = 3;
  last_attempt_at = none;
  next_retry_at = none;
  updated_at = 900;
}

abbrev pub servers_task : Task
servers_task = new_task 1 "check_servers" true Status.idle 0

abbrev pub sync_task : Task
sync_task = new_task 2 "sync_plex" false Status.disabled 0

abbrev pub stream_task : Task
stream_task = new_task 3 "stream_enforcer" true Status.queued 1

abbrev pub mail_task : Task
mail_task = new_task 4 "send_mail_campaigns" true Status.queued 1

abbrev pub rows : List Task
rows = servers_task ∷ sync_task ∷ stream_task ∷ mail_task ∷ []

abbrev pub settings : Settings
settings = record {
  enable_cron_jobs = some 1;
  expiry_mode = ExpiryMode.keep;
  maintenance_mode = false;
}

abbrev pub db_of : List Task → Db
db_of ts = record {
  tasks = ts;
  settings = some settings;
  servers = record { id = 7; type = plex; up = true } ∷ [];
  pending_jobs = [];
  enabled_policies = 0;
}

abbrev pub world_of : List Task → World
world_of ts = record {
  db = db_of ts;
  utc = 1000;
  local = 1000;
  forced = [];
  dirty = false;
  claimed = false;
  started = false;
  faults = [];
}

abbrev pub world : World
world = world_of rows

-- Every full hour.
abbrev pub hourly : Croniter
hourly schedule base = ok (base + 3600)

-- A task that does nothing, and one that always fails.
abbrev pub idle_job : Job
idle_job i = pure nothing

abbrev pub failing_job : Job
failing_job i = raise (runtime_error "no answer")

abbrev pub idle_loader : Loader
idle_loader name = ok idle_job

abbrev pub failing_loader : Loader
failing_loader name = ok failing_job
