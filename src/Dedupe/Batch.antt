-- ===== src/Dedupe/Batch.antt =====
-- The batch limit of app/tasks/media_jobs_worker.py.
use vodum.Common.{
  ℕ, zero, suc, ◌+◌, ◌-◌, ◌≤◌, ◌<◌, ◌||◌, Option, none, some, leb, arith, Bool-cases, inl, inr,
}
use vodum.Media.{
  MediaJob, Jobs, claim_one, Collector, Collected, report, failure, Tally, settle, max_batch,
  time_budget_seconds, work_job, work_jobs, run_refresh,
}

settle_processed :
    (job : MediaJob) (c : Collected) (t : Tally) (s : Jobs)
    → t.processed < max_batch
    → (settle job c t s).0.processed ≤ max_batch
unfolding settle
settle_processed job (report n) t s h = omega arith
settle_processed job (failure e) t s h = omega arith

module _ (collect : Collector) where
  work_job_processed :
      (rest : Tally → Jobs → Tally × Jobs)
      → ((t : Tally) (s : Jobs) → t.processed ≤ max_batch → (rest t s).0.processed ≤ max_batch)
      → (job : Option MediaJob) (t : Tally) (s : Jobs) → t.processed < max_batch
      → (work_job collect rest job t s).0.processed ≤ max_batch
  unfolding work_job
  work_job_processed rest bound none t s h = omega arith
  work_job_processed rest bound (some j) t s h =
      bound _ _
        (settle_processed j (collect j s.now).0 t (record s { now = (collect j s.now).1 }) h)

  work_jobs_processed :
      (fuel owner start : ℕ) (t : Tally) (s : Jobs)
      → t.processed ≤ max_batch
      → (work_jobs collect fuel owner start t s).0.processed ≤ max_batch
  unfolding work_jobs
  work_jobs_processed zero owner start t s h = h
  work_jobs_processed (suc fuel) owner start t s h =
      elim (Bool-cases (leb max_batch t.processed || leb time_budget_seconds (s.now - start))) [
        | inl stop ↦ rw stop h
        | inr go ↦ rw go (
            work_job_processed (work_jobs collect fuel (owner + 1) start)
              (work_jobs_processed fuel (owner + 1) start) (claim_one owner s).0 t
              (claim_one owner s).1 (ground arith))
      ]

  -- A run reports at most MAX_BATCH jobs as processed.
  pub run_refresh-processed :
      (fuel owner : ℕ) (s : Jobs) → (run_refresh collect fuel owner s).0.processed ≤ max_batch
  unfolding run_refresh
  run_refresh-processed fuel owner s = work_jobs_processed fuel owner s.now _ _ (omega arith)
