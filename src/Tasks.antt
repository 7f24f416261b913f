-- ===== src/Tasks.antt =====
-- The `tasks` table of tables.sql (lines 522 to 543): a row, the values of its columns, and the
-- conditions by which the code selects rows.
use vodum.Common.{ℕ, Bool, true, false, Option, String, str_eq, ◌==◌}

-- `status`: the five values that the code writes, and `unset` for NULL and for blank text, which
-- the code treats alike.
pub data Status : Type 0 where
  unset idle queued running error disabled : Status

abbrev pub is_running : Status → Bool
is_running Status.running = true
is_running _ = false

abbrev pub is_queued : Status → Bool
is_queued Status.queued = true
is_queued _ = false

abbrev pub is_error : Status → Bool
is_error Status.error = true
is_error _ = false

abbrev pub is_idle : Status → Bool
is_idle Status.idle = true
is_idle _ = false

abbrev pub is_disabled : Status → Bool
is_disabled Status.disabled = true
is_disabled _ = false

-- An exception, as far as its kind or its text matters. `last_error` holds the `str()` of one.
pub data Error : Type 0 where
  db_error timeout_error value_error schedule_error thread_error : Error
  runtime_error message : String → Error

-- `schedule_mode`: "interval", or anything else, which is read as "cron".
pub data ScheduleMode : Type 0 where
  cron interval : ScheduleMode

-- Times are seconds. NULL is `none`; `enabled` holds 0 or 1.
pub record Task : Type 0 where
  pub id : ℕ
  pub name : String
  pub schedule : Option String
  pub schedule_mode : ScheduleMode
  pub interval_seconds : ℕ
  pub enabled : Bool
  pub enabled_prev : Option Bool
  pub status : Status
  pub last_run : Option ℕ
  pub next_run : Option ℕ
  pub last_error : Option Error
  pub queued_count : ℕ
  pub retry_count : ℕ
  pub max_retries : ℕ
  pub last_attempt_at : Option ℕ
  pub next_retry_at : Option ℕ
  pub updated_at : ℕ

-- `WHERE id = ?`
abbrev pub has_id : ℕ → Task → Bool
has_id i t = t.id == i

-- `WHERE name = ?`
abbrev pub has_name : String → Task → Bool
has_name n t = str_eq t.name n
