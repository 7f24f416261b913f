-- ===== src/Media/Refresh.antt =====
-- app/tasks/media_jobs_worker.py: the worker for refresh jobs. The collector of sessions is a
-- parameter; SQLite does not fail here.
use vodum.Common.{
  ℕ, zero, suc, ◌+◌, ◌-◌, Bool, true, false, ◌&&◌, ◌||◌, Option, none, some, List, [], ◌∷◌, ltb,
  leb, ◌==◌, find_row, count_rows, update_rows, delete_rows, if◌then◌else◌,
}
use vodum.Media.Table.{
  JobStatus, JobError, recovered, MediaJob, is_refresh, is_queued, is_running, equals, is_past,
  has_expired, job_id,
}
use vodum.Media.Access.{Jobs}

abbrev pub lease_seconds : ℕ
lease_seconds = 120

abbrev pub max_batch : ℕ
max_batch = 20

abbrev pub time_budget_seconds : ℕ
time_budget_seconds = 25

unfoldable pub backoff_seconds : ℕ → ℕ
backoff_seconds attempts =
    if attempts == 1
    then 30
    else if attempts == 2
    then 120
    else if attempts == 3
    then 600
    else if attempts == 4
    then 1800
    else if attempts == 5
    then 3600
    else 7200

abbrev pub is_expired : ℕ → MediaJob → Bool
is_expired now j = is_running j.status && is_refresh j.action && has_expired j.locked_until now

abbrev pub recover_job : MediaJob → MediaJob
recover_job j = record j {
  status = JobStatus.queued;
  locked_by = none;
  locked_until = none;
  last_error = some recovered;
}

unfoldable pub recover_expired_running_refresh_jobs : Jobs → Jobs
recover_expired_running_refresh_jobs s = record s {
  rows = update_rows (is_expired s.now) recover_job s.rows;
}

-- `processed_at IS NOT NULL AND processed_at < datetime('now', '-N days')`
abbrev pub is_older : ℕ → ℕ → Option ℕ → Bool
is_older days now none = false
is_older days now (some t) = ltb (t + days) now

abbrev pub has_succeeded : JobStatus → Bool
has_succeeded JobStatus.success = true
has_succeeded _ = false

abbrev pub has_failed : JobStatus → Bool
has_failed JobStatus.error = true
has_failed JobStatus.canceled = true
has_failed _ = false

unfoldable pub cleanup_finished_refresh_jobs : Jobs → Jobs
cleanup_finished_refresh_jobs s = record s {
  rows =
      delete_rows
        (λ j. is_refresh j.action && has_failed j.status && is_older 604800 s.now j.processed_at)
        (delete_rows
          (λ j.
            is_refresh j.action && has_succeeded j.status && is_older 172800 s.now j.processed_at)
          s.rows);
}

-- The condition of the SELECT in `_claim_one`.
abbrev pub is_claimable : ℕ → MediaJob → Bool
is_claimable now j =
    is_queued j.status
    && is_refresh j.action
    && is_past j.run_after now
    && is_past j.locked_until now

-- `ORDER BY priority ASC, created_at ASC`; among equals SQLite may take any row, here the first.
unfoldable pub precedes : MediaJob → MediaJob → Bool
precedes j k =
    ltb j.priority k.priority || (j.priority == k.priority && ltb j.created_at k.created_at)

unfoldable pub first_of_two : MediaJob → Option MediaJob → MediaJob
first_of_two j none = j
first_of_two j (some k) = if precedes k j then k else j

unfoldable pub next_claimable : ℕ → List MediaJob → Option MediaJob
unfolding first_of_two
next_claimable now [] = none
next_claimable now (j ∷ js) =
    if is_claimable now j
    then some (first_of_two j (next_claimable now js))
    else next_claimable now js

abbrev pub claimed_row : ℕ → ℕ → MediaJob → MediaJob
claimed_row owner now j = record j {
  status = JobStatus.running;
  locked_by = some owner;
  locked_until = some (now + lease_seconds);
  executed_at = some now;
  attempts = j.attempts + 1;
}

-- The row read back, if it is running under this owner.
abbrev pub confirmed : ℕ → Option MediaJob → Option MediaJob
confirmed owner none = none
confirmed owner (some j) = if is_running j.status && equals j.locked_by owner then some j else none

unfoldable pub claim_found : ℕ → Option MediaJob → Jobs → Option MediaJob × Jobs
claim_found owner none s = (none, s)
claim_found owner (some j) s =
    let hit = λ (k : MediaJob). job_id j.id k && is_claimable s.now k in
    let rows = update_rows hit (claimed_row owner s.now) s.rows in
    if count_rows hit s.rows == 1
    then (confirmed owner (find_row (job_id j.id) rows), record s { rows = rows })
    else (none, record s { rows = rows })

-- `_claim_one`, with the name of the new claim.
unfoldable pub claim_one : ℕ → Jobs → Option MediaJob × Jobs
unfolding claim_found
claim_one owner s = claim_found owner (next_claimable s.now s.rows) s

-- `WHERE id=? AND status='running' AND locked_by=?`; `locked_by = NULL` is never true.
abbrev pub is_owned : MediaJob → MediaJob → Bool
is_owned job j =
    job_id job.id j
    && is_running j.status
    && elim job.locked_by [ none ↦ false | some owner ↦ equals j.locked_by owner ]

abbrev pub success_job : ℕ → MediaJob → MediaJob
success_job now j = record j {
  status = JobStatus.success;
  processed = true;
  was_success = true;
  processed_at = some now;
  locked_by = none;
  locked_until = none;
  last_error = none;
}

unfoldable pub mark_success : MediaJob → Jobs → Jobs
mark_success job s = record s { rows = update_rows (is_owned job) (success_job s.now) s.rows }

abbrev pub error_job : JobError → ℕ → MediaJob → MediaJob
error_job e now j = record j {
  status = JobStatus.error;
  processed = true;
  was_success = false;
  processed_at = some now;
  locked_by = none;
  locked_until = none;
  last_error = some e;
}

abbrev pub requeue_job : JobError → ℕ → MediaJob → MediaJob
requeue_job e at j = record j {
  status = JobStatus.queued;
  run_after = some at;
  locked_by = none;
  locked_until = none;
  last_error = some e;
}

-- `int(job["max_attempts"] or 10)`
abbrev pub limit_of : MediaJob → ℕ
limit_of j = if j.max_attempts == 0 then 10 else j.max_attempts

unfoldable pub mark_retry_or_error : MediaJob → JobError → Jobs → Jobs
unfolding backoff_seconds
mark_retry_or_error job e s =
    if leb (limit_of job) job.attempts
    then record s { rows = update_rows (is_owned job) (error_job e s.now) s.rows }
    else record s {
      rows =
          update_rows (is_owned job) (requeue_job e (s.now + backoff_seconds job.attempts)) s.rows;
    }

-- What the collector answers for a job: the sessions that it saw or an exception, and the clock
-- when it ends.
pub data Collected : Type 0 where
  report : (sessions_seen : ℕ) → Collected
  failure : JobError → Collected

abbrev pub Collector : Type 0
Collector = MediaJob → ℕ → Collected × ℕ

pub record Tally : Type 0 where
  pub processed : ℕ
  pub errors : ℕ
  pub sessions_seen : ℕ

unfoldable pub settle : MediaJob → Collected → Tally → Jobs → Tally × Jobs
settle job (report n) t s = (
  record t { processed = t.processed + 1; sessions_seen = t.sessions_seen + n },
  mark_success job s,
)
settle job (failure e) t s = (record t { errors = t.errors + 1 }, mark_retry_or_error job e s)

module _ (collect : Collector) where
  -- The rest of a round, after the claim. Each claim has a new owner.
  unfoldable pub work_job :
      (Tally → Jobs → Tally × Jobs) → Option MediaJob → Tally → Jobs → Tally × Jobs
  work_job rest none t s = (t, s)
  work_job rest (some job) t s =
      let (outcome, now) = collect job s.now in
      let (t', s') = settle job outcome t (record s { now = now }) in rest t' s'

  -- The `while` loop on fuel; it stops at MAX_BATCH, at the time budget, or with nothing to claim.
  unfoldable pub work_jobs : ℕ → ℕ → ℕ → Tally → Jobs → Tally × Jobs
  work_jobs zero owner start t s = (t, s)
  work_jobs (suc fuel) owner start t s =
      if leb max_batch t.processed || leb time_budget_seconds (s.now - start)
      then (t, s)
      else let (job, s') = claim_one owner s in work_job (work_jobs fuel (owner + 1) start) job t s'

  -- `run`, up to the end of the loop.
  unfoldable pub run_refresh : ℕ → ℕ → Jobs → Tally × Jobs
  run_refresh fuel owner s =
      work_jobs fuel owner s.now (record { processed = 0; errors = 0; sessions_seen = 0 })
        (cleanup_finished_refresh_jobs (recover_expired_running_refresh_jobs s))
