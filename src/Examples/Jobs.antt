-- ===== src/Examples/Jobs.antt =====
-- The theorems on media jobs and on sequences of tasks at concrete inputs.
use vodum.Common.{
  if◌then◌else◌, ◌==◌, ℕ, ◌+◌, ◌≤◌, ◌≡◌, ◌⊎◌, refl, true, false, none, some, List, [], ◌∷◌, ◌++◌,
  String, count_rows, where_rows, Bool-cases, subst, inl, inr, arith, eq_iff, str_eq,
}
use vodum.State.{World, ok, raised}
use vodum.Media.{
  MediaJob, JobProvider, JobAction, JobStatus, Jobs, AccessRequest, is_waiting_rival,
  has_running_access_job, queue_access_job, recover_expired_running_refresh_jobs, claim_one, settle,
  report, Collector, run_refresh,
}
use vodum.Sequences.{enqueue, take_next, enqueue_sequence}
use vodum.Dedupe.Keys.{is_active_key, IsUnique, run_refresh-IsUnique}
use vodum.Dedupe.Rivals.{is_underway, queue_access_job_lem}
use vodum.Dedupe.Leases.{late_settle}
use vodum.Dedupe.Fuel.{run_refresh_enough}
use vodum.Ownership.{
  stay, go_on, Pool, empty_pool, submitted_to, turned, submit, turn, Reach, begin, next,
  Reach-owned_once, failed_start_blocks,
}
use vodum.Samples.{world}

abbrev pub request : AccessRequest
request = record {
  provider = JobProvider.plex;
  action = JobAction.grant;
  vodum_user_id = 5;
  server_id = 7;
  library_id = some 2;
  dedupe_key = "plex:grant:5:7:2";
  payload = "{}";
}

-- An access job of the same user that waits, and a refresh job whose lease has run out.
abbrev pub waiting_job : MediaJob
waiting_job = record {
  id = 1;
  provider = JobProvider.plex;
  action = JobAction.revoke;
  vodum_user_id = some 5;
  server_id = some 7;
  library_id = some 2;
  payload_json = none;
  status = JobStatus.queued;
  priority = 100;
  run_after = none;
  locked_by = none;
  locked_until = none;
  attempts = 0;
  max_attempts = 10;
  last_error = none;
  processed = false;
  was_success = false;
  created_at = 800;
  processed_at = none;
  executed_at = none;
  dedupe_key = some "plex:revoke:5:7:2";
}

abbrev leased_job : MediaJob
leased_job = record waiting_job {
  id = 2;
  action = JobAction.refresh;
  status = JobStatus.running;
  locked_by = some 31;
  locked_until = some 900;
  attempts = 1;
  dedupe_key = some "plex:refresh:7";
}

abbrev refresh_job : MediaJob
refresh_job = record leased_job {
  status = JobStatus.queued;
  locked_by = none;
  locked_until = none;
  attempts = 0;
}

abbrev pub jobs_of : List MediaJob → Jobs
jobs_of js = record { rows = js; next_id = 9; now = 1000 }

abbrev jobs : Jobs
jobs = jobs_of (waiting_job ∷ leased_job ∷ [])

-- A collector that sees two sessions in one second.
abbrev collector : Collector
collector job now = (report 2, now + 1)

keys-IsUnique : IsUnique jobs.rows
keys-IsUnique = record {
  at_key = λ k. elim (Bool-cases (str_eq "plex:refresh:7" k)) [
    | inr other ↦ ground (arith, other)
    | inl same ↦
        subst (λ (l : String). count_rows (is_active_key l) jobs.rows ≤ 1)
          ((eq_iff "plex:refresh:7" k).0 same) (omega arith)
  ];
}

run_refresh-IsUnique_example : IsUnique (run_refresh collector 3 32 jobs).1.rows
run_refresh-IsUnique_example = run_refresh-IsUnique collector 3 32 jobs keys-IsUnique

queue_access_job_lem_example :
    let out = (queue_access_job request jobs).0 in
    let s' = (queue_access_job request jobs).1 in
    (out ≡ ok true)
    × (count_rows (is_waiting_rival request) s'.rows ≡ 1)
    × (where_rows is_underway s'.rows ≡ leased_job ∷ [])
unfolding has_running_access_job
queue_access_job_lem_example = queue_access_job_lem request jobs refl

late_settle_example :
    let s' = (claim_one 32 (recover_expired_running_refresh_jobs jobs)).1 in
    (settle leased_job
      (report 2)
      (record { processed = 0; errors = 0; sessions_seen = 0 })
      s').1.rows
    ≡ s'.rows
late_settle_example =
    late_settle leased_job 31 32 (report 2)
      (record { processed = 0; errors = 0; sessions_seen = 0 }) jobs refl (λ e. ground arith)
      ((λ h. absurd (cc)), ((λ h. refl), tt))

run_refresh_enough_example : run_refresh collector 3 32 jobs ≡ run_refresh collector 50 32 jobs
run_refresh_enough_example =
    run_refresh_enough collector (λ j now. omega arith) 3 50 32 jobs (omega arith) (omega arith)

-- A caller submits two sequences, and the worker takes the first.
abbrev submitted_with : World → List String → Pool → Pool
submitted_with w names p =
    submitted_to names p (enqueue names p.queue).0 (enqueue_sequence names p.queue w)

abbrev pool_one : Pool
pool_one = submitted_with world ("check_servers" ∷ []) empty_pool

abbrev pool_two : Pool
pool_two = submitted_with world ("sync_plex" ∷ []) pool_one

abbrev pool_three : Pool
pool_three = turned pool_two (take_next pool_two.queue)

pool-Reach : Reach pool_three
unfolding enqueue enqueue_sequence vodum.State.request
pool-Reach =
    next pool_two pool_three
      (next pool_one pool_two
        (next empty_pool pool_one begin (submit empty_pool ("check_servers" ∷ []) world))
        (submit pool_one ("sync_plex" ∷ []) world))
      (turn pool_two (omega arith))

Reach-owned_once_example :
    (pool_three.workers + pool_three.failed ≤ 1)
    × ((pool_three.queue.items ≡ []) ⊎ (pool_three.workers + pool_three.failed ≡ 1))
    × (pool_three.submitted ≡ pool_three.taken ++ pool_three.queue.items)
Reach-owned_once_example = Reach-owned_once pool_three pool-Reach

-- The thread of the first sequence does not start; another sequence is submitted later.
abbrev faulty : World
faulty = record world { faults = true ∷ [] }

abbrev failed_pool : Pool
failed_pool = submitted_with faulty ("check_servers" ∷ []) empty_pool

abbrev later_pool : Pool
later_pool = submitted_with world ("sync_plex" ∷ []) failed_pool

one_failed : 1 ≤ failed_pool.failed
unfolding enqueue enqueue_sequence vodum.State.request
one_failed = omega arith

failed_start_blocks_example :
    (later_pool.workers ≡ 0)
    × (later_pool.taken ≡ failed_pool.taken)
    × (later_pool.submitted ≡ failed_pool.taken ++ later_pool.queue.items)
failed_start_blocks_example =
    failed_start_blocks failed_pool later_pool
      (next empty_pool failed_pool begin (submit empty_pool ("check_servers" ∷ []) faulty))
      one_failed (go_on failed_pool later_pool stay (submit failed_pool ("sync_plex" ∷ []) world))

-- Nothing else happens while a sequence waits, but time passes.
abbrev passing : ℕ → World → World
passing n w = record w { utc = w.utc + 2 }

-- One more sequence comes in while the first one runs.
abbrev one_more : ℕ → List (List String)
one_more n = if n == 3 then ("check_update" ∷ []) ∷ [] else []
