-- ===== src/Dedupe/Keys.antt =====
-- The unique index on the keys of active rows of `media_jobs`, and the operations of both modules.
use vodum.Common.{
  ℕ, zero, suc, ◌+◌, ◌-◌, ◌==◌, ◌≤◌, ◌≡◌, refl, Bool, true, ◌&&◌, ◌||◌, Option, none, some, List,
  [], ◌∷◌, String, str_eq, eq_iff, ltb, leb, count_rows, update_rows, delete_rows,
  count_rows-append, count_rows-update_le, count_rows-delete_le, arith, Bool-cases, inl, inr,
}
use vodum.Media.{
  MediaJob, is_active, has_key, is_access, Jobs, AccessRequest, queue_access_job, insert_or_ignore,
  cleared, is_waiting_rival, cancel_row, new_job, recover_expired_running_refresh_jobs, is_expired,
  recover_job, cleanup_finished_refresh_jobs, claim_one, claim_found, max_batch,
  time_budget_seconds, limit_of, next_claimable, claimed_row, is_claimable, job_id, mark_success,
  success_job, is_owned, mark_retry_or_error, error_job, requeue_job, settle, Collected, report,
  failure, Collector, Tally, work_job, work_jobs, run_refresh, JobError,
}

abbrev pub is_active_key : String → MediaJob → Bool
is_active_key k j = is_active j && has_key k j

-- The unique index `uq_media_jobs_dedupe_active`.
pub record IsUnique (rows : List MediaJob) : Type 0 where
  pub at_key : (k : String) → count_rows (is_active_key k) rows ≤ 1

-- An update that makes no row active and leaves the keys alone.
pub update-IsUnique :
    (p : MediaJob → Bool) (f : MediaJob → MediaJob)
    → ((k : String) (j : MediaJob)
        → p j ≡ true
        → is_active_key k (f j) ≡ true
        → is_active_key k j ≡ true)
    → (rows : List MediaJob) → IsUnique rows
    → IsUnique (update_rows p f rows)
update-IsUnique p f keep rows h = record {
  at_key = λ k. omega (arith, count_rows-update_le (is_active_key k) p f (keep k) rows, h.at_key k);
}

pub delete-IsUnique :
    (p : MediaJob → Bool) (rows : List MediaJob) → IsUnique rows → IsUnique (delete_rows p rows)
delete-IsUnique p rows h = record {
  at_key = λ k. omega (arith, count_rows-delete_le (is_active_key k) p rows, h.at_key k);
}

cleared-IsUnique :
    (r : AccessRequest) (key : String) (s : Jobs)
    → IsUnique s.rows
    → IsUnique (cleared r key s).rows
cleared-IsUnique r key s h =
    delete-IsUnique _ _
      (update-IsUnique (is_waiting_rival r) (cancel_row s.now) (λ k j p q. ground arith) s.rows h)

insert-IsUnique :
    (key : String) (make : Jobs → MediaJob) (s : Jobs)
    → ((k : String) → has_key k (make s) ≡ str_eq key k)
    → IsUnique s.rows
    → IsUnique (insert_or_ignore key make s).1.rows
unfolding insert_or_ignore
insert-IsUnique key make s keyed h =
    elim (Bool-cases (ltb 0 (count_rows (is_active_key key) s.rows))) [
      | inl taken ↦ rw taken h
      | inr free ↦ rw free (record {
        at_key = λ k. ground (
          arith,
          count_rows-append (is_active_key k) s.rows (make s ∷ []),
          h.at_key k,
          keyed k,
          eq_iff key k,
          h.at_key key,
        );
      })
    ]

-- Queueing an access job keeps the keys of active rows unique, also where the key is taken.
pub queue_access_job-IsUnique :
    (r : AccessRequest) (s : Jobs) → IsUnique s.rows → IsUnique (queue_access_job r s).1.rows
unfolding queue_access_job
queue_access_job-IsUnique r s h = elim (Bool-cases (is_access r.action)) [
  | inr refused ↦ rw refused h
  | inl known ↦
      rw known
        (insert-IsUnique _ (new_job r _ _) (cleared r _ s) (λ k. refl) (cleared-IsUnique r _ s h))
]

recover-IsUnique :
    (s : Jobs) → IsUnique s.rows → IsUnique (recover_expired_running_refresh_jobs s).rows
unfolding recover_expired_running_refresh_jobs
recover-IsUnique s h =
    update-IsUnique (is_expired s.now) recover_job (λ k j p q. ground arith) s.rows h

cleanup-IsUnique : (s : Jobs) → IsUnique s.rows → IsUnique (cleanup_finished_refresh_jobs s).rows
unfolding cleanup_finished_refresh_jobs
cleanup-IsUnique s h = delete-IsUnique _ _ (delete-IsUnique _ _ h)

claim_found-IsUnique :
    (owner : ℕ) (found : Option MediaJob) (s : Jobs)
    → IsUnique s.rows
    → IsUnique (claim_found owner found s).1.rows
unfolding claim_found
claim_found-IsUnique owner none s h = h
claim_found-IsUnique owner (some j) s h =
    let claimed =
      update-IsUnique (λ k. job_id j.id k && is_claimable s.now k) (claimed_row owner s.now)
        (λ k l p q. ground arith) s.rows h in
    elim (Bool-cases (count_rows (λ k. job_id j.id k && is_claimable s.now k) s.rows == 1)) [
      | inl one ↦ rw one claimed
      | inr other ↦ rw other claimed
    ]

pub claim_one-IsUnique :
    (owner : ℕ) (s : Jobs) → IsUnique s.rows → IsUnique (claim_one owner s).1.rows
unfolding claim_one
claim_one-IsUnique owner s h = claim_found-IsUnique owner (next_claimable s.now s.rows) s h

mark_success-IsUnique :
    (job : MediaJob) (s : Jobs) → IsUnique s.rows → IsUnique (mark_success job s).rows
unfolding mark_success
mark_success-IsUnique job s h =
    update-IsUnique (is_owned job) (success_job s.now) (λ k j p q. ground arith) s.rows h

mark_retry_or_error-IsUnique :
    (job : MediaJob) (e : JobError) (s : Jobs)
    → IsUnique s.rows
    → IsUnique (mark_retry_or_error job e s).rows
unfolding mark_retry_or_error
mark_retry_or_error-IsUnique job e s h = elim (Bool-cases (leb (limit_of job) job.attempts)) [
  | inl spent ↦
      rw spent
        (update-IsUnique (is_owned job) (error_job e s.now) (λ k j p q. ground arith) s.rows h)
  | inr left ↦
      rw left (update-IsUnique (is_owned job) (requeue_job e _) (λ k j p q. ground arith) s.rows h)
]

settle-IsUnique :
    (job : MediaJob) (c : Collected) (t : Tally) (s : Jobs)
    → IsUnique s.rows
    → IsUnique (settle job c t s).1.rows
unfolding settle
settle-IsUnique job (report n) t s h = mark_success-IsUnique job s h
settle-IsUnique job (failure e) t s h = mark_retry_or_error-IsUnique job e s h

module _ (collect : Collector) where
  work_job-IsUnique :
      (rest : Tally → Jobs → Tally × Jobs)
      → ((t : Tally) (s : Jobs) → IsUnique s.rows → IsUnique (rest t s).1.rows)
      → (job : Option MediaJob) (t : Tally) (s : Jobs) → IsUnique s.rows
      → IsUnique (work_job collect rest job t s).1.rows
  unfolding work_job
  work_job-IsUnique rest keeps none t s h = h
  work_job-IsUnique rest keeps (some job) t s h =
      keeps _ _
        (settle-IsUnique job (collect job s.now).0 t (record s { now = (collect job s.now).1 }) h)

  work_jobs-IsUnique :
      (fuel owner start : ℕ) (t : Tally) (s : Jobs)
      → IsUnique s.rows
      → IsUnique (work_jobs collect fuel owner start t s).1.rows
  unfolding work_jobs
  work_jobs-IsUnique zero owner start t s h = h
  work_jobs-IsUnique (suc fuel) owner start t s h =
      elim (Bool-cases (leb max_batch t.processed || leb time_budget_seconds (s.now - start))) [
        | inl stop ↦ rw stop h
        | inr go ↦ rw go (
            work_job-IsUnique (work_jobs collect fuel (owner + 1) start)
              (work_jobs-IsUnique fuel (owner + 1) start) (claim_one owner s).0 t
              (claim_one owner s).1 (claim_one-IsUnique owner s h))
      ]

  -- A run of the refresh worker keeps the keys of active rows unique: the recovery and the cleanup,
  -- and then each claim and each settlement.
  pub run_refresh-IsUnique :
      (fuel owner : ℕ) (s : Jobs)
      → IsUnique s.rows
      → IsUnique (run_refresh collect fuel owner s).1.rows
  unfolding run_refresh
  run_refresh-IsUnique fuel owner s h =
      work_jobs-IsUnique fuel owner s.now _ _ (cleanup-IsUnique _ (recover-IsUnique s h))
