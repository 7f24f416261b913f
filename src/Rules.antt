-- ===== src/Rules.antt =====
-- app/core/tasks/scheduler_rules.py and app/core/tasks/result_validation.py: the pure rules of the
-- scheduler. croniter, which computes the next time of a cron line, is a parameter.
use Prim.Native.String.{◌++◌ as str_append}
use vodum.Common.{
  ℕ, ◌+◌, ◌<◌, ◌≡◌, Bool, true, false, ◌&&◌, ◌||◌, Option, none, some, String, str_eq, ltb, leb,
  ◌==◌, if◌then◌else◌, is_some,
}
use vodum.Tasks.{
  Status, is_running, is_queued, is_error, timeout_error, runtime_error, ScheduleMode, interval,
}
use vodum.State.{Result, ok, raised}

-- Python's truth of a nullable text: neither NULL nor empty.
abbrev pub has_text : Option String → Bool
has_text none = false
has_text (some s) = if str_eq s "" then false else true

unfoldable pub retry_is_pending : Status → Option ℕ → ℕ → ℕ → Bool
retry_is_pending status next_retry_at retry_count max_retries =
    is_error status && is_some next_retry_at && ltb retry_count max_retries

unfoldable pub task_is_busy : Status → ℕ → Bool
task_is_busy status queued_count = is_running status || is_queued status || ltb 0 queued_count

unfoldable pub scheduled_run_is_due : ℕ → ℕ → Bool → Bool
scheduled_run_is_due next_run now forced = forced || leb next_run now

-- The delays "+1 minute", "+5 minutes", "+15 minutes" and "+30 minutes" in seconds.
unfoldable pub retry_modifier_for_attempt : ℕ → ℕ
retry_modifier_for_attempt n =
    if leb n 1 then 60 else if n == 2 then 300 else if n == 3 then 900 else 1800

-- `croniter(schedule, base).get_next()`: it raises on a malformed line.
abbrev pub Croniter : Type 0
Croniter = String → ℕ → Result ℕ

-- The documented behaviour: the next time lies after the base.
abbrev pub Advances : Croniter → Type 0
Advances next = (schedule : String) (base t : ℕ) → next schedule base ≡ ok t → base < t

module _ (croniter : Croniter) where
  unfoldable pub compute_next_task_run : String → ScheduleMode → ℕ → ℕ → Result ℕ
  compute_next_task_run schedule interval seconds base =
      if ltb 0 seconds then ok (base + seconds) else croniter schedule base
  compute_next_task_run schedule _ seconds base = croniter schedule base

-- What the callable of a task returns. Of a dict only `status`, normalised and compared with
-- "error", and the two texts that may explain it matter.
pub data Payload : Type 0 where
  nothing other_value : Payload
  dict : (is_error_status : Bool) (message error : Option String) → Payload

-- `str(text or fallback)` of an optional entry of the dict.
explanation : Option String → String → String
explanation none fallback = fallback
explanation (some s) fallback = if str_eq s "" then fallback else s

check_status : String → Payload → Result Payload
unfolding explanation
check_status task_name (dict true message error) =
    let fallback = str_append "Task " (str_append task_name " returned status=error") in
    raised (runtime_error (explanation message (explanation error fallback)))
check_status task_name result = ok result

unfoldable pub validate_task_result : String → Payload → ℕ → ℕ → Result Payload
unfolding check_status
validate_task_result task_name result duration max_duration =
    if ltb max_duration duration then raised timeout_error else check_status task_name result
