-- ===== src/Dedupe/Fuel.antt =====
-- The `while` loop of app/tasks/media_jobs_worker.py and its fuel: a job that failed waits at least
-- 30 seconds, and a run claims for 25 at most.
use vodum.Common.{
  ℕ, zero, suc, ◌+◌, ◌-◌, ◌≤◌, ◌<◌, ◌≡◌, refl, Bool, true, false, ◌&&◌, ◌||◌, Option, none, some,
  List, [], ◌∷◌, leb, ◌==◌, length, count_rows, update_rows, delete_rows, count_rows-update_le,
  arith, Bool-cases, inl, inr,
}
use vodum.Media.{
  MediaJob, job_id, Jobs, recover_expired_running_refresh_jobs, is_expired,
  cleanup_finished_refresh_jobs, recover_job, is_claimable, is_past, is_refresh, has_failed,
  has_succeeded, is_older, claimed_row, next_claimable, claim_found, claim_one, is_owned,
  mark_success, success_job, mark_retry_or_error, error_job, requeue_job, limit_of, Collector,
  Collected, report, failure, Tally, settle, backoff_seconds, max_batch, time_budget_seconds,
  work_job, work_jobs, run_refresh,
}

-- The jobs that the run might still claim.
abbrev open_count : ℕ → Jobs → ℕ
open_count limit s = count_rows (is_claimable limit) s.rows

later_past :
    (t : Option ℕ) (now limit : ℕ) → now ≤ limit → is_past t now ≡ true → is_past t limit ≡ true
later_past none now limit h p = refl
later_past (some t) now limit h p = ground arith

later_claimable :
    (now limit : ℕ) (j : MediaJob)
    → now ≤ limit
    → is_claimable now j ≡ true
    → is_claimable limit j ≡ true
later_claimable now limit j h c =
    ground (arith, later_past j.run_after now limit h, later_past j.locked_until now limit h)

-- An update takes the rows out that it meets.
count_rows-update_drop :
    (q p : MediaJob → Bool) (f : MediaJob → MediaJob)
    → ((j : MediaJob) → p j ≡ true → q j ≡ true)
    → ((j : MediaJob) → q (f j) ≡ false)
    → (js : List MediaJob) → count_rows q (update_rows p f js) + count_rows p js ≤ count_rows q js
count_rows-update_drop q p f before after [] = omega arith
count_rows-update_drop q p f before after (j ∷ js) =
    ground (arith, before j, after j, count_rows-update_drop q p f before after js)

claim_found_drop :
    (owner limit : ℕ) (found : Option MediaJob) (s : Jobs) (j : MediaJob)
    → s.now ≤ limit
    → (claim_found owner found s).0 ≡ some j
    → open_count limit (claim_found owner found s).1 < open_count limit s
unfolding claim_found
claim_found_drop owner limit none s j h e = absurd (cc)
claim_found_drop owner limit (some k) s j h e =
    let hit = λ (l : MediaJob). job_id k.id l && is_claimable s.now l in
    let drop =
      count_rows-update_drop (is_claimable limit) hit (claimed_row owner s.now)
        (λ l p. later_claimable s.now limit l h (ground arith)) (λ l. ground arith) s.rows in
    elim (Bool-cases (count_rows hit s.rows == 1)) [
      | inl one ↦ rw one (ground arith)
      | inr other ↦ let lost : none ≡ some j = rw other at e in absurd (cc)
    ]

backoff_lem : (n : ℕ) → 30 ≤ backoff_seconds n
unfolding backoff_seconds
backoff_lem n = ground arith

settle_le :
    (limit : ℕ) (job : MediaJob) (c : Collected) (t : Tally) (s : Jobs)
    → limit < s.now + 30
    → open_count limit (settle job c t s).1 ≤ open_count limit s
unfolding settle mark_success mark_retry_or_error
settle_le limit job (report n) t s h =
    count_rows-update_le (is_claimable limit) (is_owned job) (success_job s.now)
      (λ j p q. ground arith) s.rows
settle_le limit job (failure e) t s h = elim (Bool-cases (leb (limit_of job) job.attempts)) [
  | inl spent ↦ rw spent (
      count_rows-update_le (is_claimable limit) (is_owned job) (error_job e s.now)
        (λ j p q. ground arith) s.rows)
  | inr left ↦ rw left (
      count_rows-update_le (is_claimable limit) (is_owned job)
        (requeue_job e (s.now + backoff_seconds job.attempts))
        (λ j p q. ground (arith, backoff_lem job.attempts)) s.rows)
]

settle_now :
    (job : MediaJob) (c : Collected) (t : Tally) (s : Jobs) → (settle job c t s).1.now ≡ s.now
unfolding settle mark_success mark_retry_or_error
settle_now job (report n) t s = refl
settle_now job (failure e) t s = ground arith

claim_found_now :
    (owner : ℕ) (found : Option MediaJob) (s : Jobs) → (claim_found owner found s).1.now ≡ s.now
unfolding claim_found
claim_found_now owner none s = refl
claim_found_now owner (some j) s = ground arith

count_rows-length_le : (q : MediaJob → Bool) (js : List MediaJob) → count_rows q js ≤ length js
count_rows-length_le q [] = omega arith
count_rows-length_le q (j ∷ js) = ground (arith, count_rows-length_le q js)

length-delete_le :
    (p : MediaJob → Bool) (js : List MediaJob) → length (delete_rows p js) ≤ length js
length-delete_le p [] = omega arith
length-delete_le p (j ∷ js) = ground (arith, length-delete_le p js)

length-update :
    (p : MediaJob → Bool) (f : MediaJob → MediaJob) (js : List MediaJob)
    → length (update_rows p f js) ≡ length js
length-update p f [] = refl
length-update p f (j ∷ js) = omega (arith, length-update p f js)

-- The recovery and the cleanup do not add a row.
cleaned_le :
    (limit : ℕ) (s : Jobs)
    → open_count limit (cleanup_finished_refresh_jobs (recover_expired_running_refresh_jobs s))
      ≤ length s.rows
unfolding recover_expired_running_refresh_jobs cleanup_finished_refresh_jobs
cleaned_le limit s = omega (
  arith,
  count_rows-length_le (is_claimable limit)
      (cleanup_finished_refresh_jobs (recover_expired_running_refresh_jobs s)).rows,
  length-delete_le
      (λ j. is_refresh j.action && has_failed j.status && is_older 604800 s.now j.processed_at)
      (delete_rows
        (λ j. is_refresh j.action && has_succeeded j.status && is_older 172800 s.now j.processed_at)
        (update_rows (is_expired s.now) recover_job s.rows)),
  length-delete_le
      (λ j. is_refresh j.action && has_succeeded j.status && is_older 172800 s.now j.processed_at)
      (update_rows (is_expired s.now) recover_job s.rows),
  length-update (is_expired s.now) recover_job s.rows,
)

work_job_same :
    (collect : Collector) (rest rest' : Tally → Jobs → Tally × Jobs) (job : Option MediaJob)
    (t : Tally) (s : Jobs)
    → ((j : MediaJob)
        → job ≡ some j
        → let out = settle j (collect j s.now).0 t (record s { now = (collect j s.now).1 }) in
          rest out.0 out.1 ≡ rest' out.0 out.1)
    → work_job collect rest job t s ≡ work_job collect rest' job t s
unfolding work_job
work_job_same collect rest rest' none t s h = refl
work_job_same collect rest rest' (some j) t s h = h j refl

module _ (collect : Collector) (forward : (j : MediaJob) (now : ℕ) → now ≤ (collect j now).1) where
  round_lem :
      (owner start : ℕ) (t : Tally) (s : Jobs) (j : MediaJob)
      → start ≤ s.now
      → s.now < start + time_budget_seconds
      → (claim_one owner s).0 ≡ some j
      → let s' = (claim_one owner s).1 in
        let out = settle j (collect j s'.now).0 t (record s' { now = (collect j s'.now).1 }) in
        (start ≤ out.1.now)
        × (open_count (start + time_budget_seconds) out.1
            < open_count (start + time_budget_seconds) s)
  unfolding claim_one
  round_lem owner start t s j h w e =
      let limit = start + time_budget_seconds in
      let s' = (claim_one owner s).1 in
      let ended = record s' { now = (collect j s'.now).1 } in
      let less = claim_found_drop owner limit (next_claimable s.now s.rows) s j (omega arith) e in
      let same = claim_found_now owner (next_claimable s.now s.rows) s in
      let later = settle_now j (collect j s'.now).0 t ended in
      let fewer =
        settle_le limit j (collect j s'.now).0 t ended (omega (arith, forward j s'.now, same)) in
      (omega (arith, forward j s'.now, same, later), omega (arith, less, fewer))

  work_jobs_enough :
      (fuel fuel' owner start : ℕ) (t : Tally) (s : Jobs)
      → start ≤ s.now
      → open_count (start + time_budget_seconds) s < fuel
      → open_count (start + time_budget_seconds) s < fuel'
      → work_jobs collect fuel owner start t s ≡ work_jobs collect fuel' owner start t s
  unfolding work_jobs claim_one
  work_jobs_enough zero fuel' owner start t s h a b = ground arith
  work_jobs_enough (suc fuel) zero owner start t s h a b = ground arith
  work_jobs_enough (suc fuel) (suc fuel') owner start t s h a b =
      elim (Bool-cases (leb max_batch t.processed || leb time_budget_seconds (s.now - start))) [
        | inl stop ↦ rw stop refl
        | inr go ↦ rw go (
            work_job_same collect (work_jobs collect fuel (owner + 1) start)
              (work_jobs collect fuel' (owner + 1) start) (claim_one owner s).0 t
              (claim_one owner s).1
              (λ j e.
                let next = round_lem owner start t s j h (ground arith) e in
                work_jobs_enough fuel fuel' (owner + 1) start _ _ next.0 (omega (arith, next.1))
                  (omega (arith, next.1))))
      ]

  -- The loop needs no more fuel than there are rows: if the clock never goes back, any fuel above
  -- their number gives the run of any other, so the loop ends by its own conditions.
  pub run_refresh_enough :
      (fuel fuel' owner : ℕ) (s : Jobs)
      → length s.rows < fuel
      → length s.rows < fuel'
      → run_refresh collect fuel owner s ≡ run_refresh collect fuel' owner s
  unfolding run_refresh recover_expired_running_refresh_jobs cleanup_finished_refresh_jobs
  run_refresh_enough fuel fuel' owner s a b =
      let few = cleaned_le (s.now + time_budget_seconds) s in
      work_jobs_enough fuel fuel' owner s.now _ _ (omega arith) (omega (arith, few))
        (omega (arith, few))
