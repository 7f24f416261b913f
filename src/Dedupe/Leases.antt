-- ===== src/Dedupe/Leases.antt =====
-- The leases of app/tasks/media_jobs_worker.py: claims, and the reports of a worker that comes late.
use vodum.Common.{
  ℕ, ◌+◌, ◌≡◌, ◌≢◌, refl, Bool, true, false, ◌&&◌, Option, none, some, List, [], ◌∷◌, leb, ◌==◌,
  find_row, find_row_fits, count_rows, update_rows, count_rows-update_zero, All, arith, Bool-cases,
  inl, inr, subst,
}
use vodum.Media.{
  MediaJob, is_running, equals, job_id, Jobs, recover_expired_running_refresh_jobs, is_expired,
  recover_job, is_claimable, claimed_row, confirmed, next_claimable, claim_found, claim_one,
  is_owned, mark_success, success_job, mark_retry_or_error, error_job, requeue_job, limit_of,
  Collected, report, failure, Tally, settle, backoff_seconds,
}

abbrev IsClaim : ℕ → Jobs → MediaJob → Jobs → Type 0
IsClaim owner s j s' =
    (is_running j.status && equals j.locked_by owner ≡ true)
    × (count_rows (λ k. job_id j.id k && is_claimable s.now k) s.rows ≡ 1)
    × (count_rows (λ k. job_id j.id k && is_claimable s.now k) s'.rows ≡ 0)

confirmed_lem :
    (owner : ℕ) (found : Option MediaJob) (j : MediaJob)
    → confirmed owner found ≡ some j
    → (found ≡ some j) × (is_running j.status && equals j.locked_by owner ≡ true)
confirmed_lem owner none j e = absurd (cc)
confirmed_lem owner (some k) j e =
    elim (Bool-cases (is_running k.status && equals k.locked_by owner)) [
      | inl t ↦
          let same : some k ≡ some j = rw t at e in
          let eq : k ≡ j = cc in
          (
            same,
            subst (λ (l : MediaJob). is_running l.status && equals l.locked_by owner ≡ true) eq t,
          )
      | inr f ↦ let lost : none ≡ some j = rw f at e in absurd (cc)
    ]

claimed_lem :
    (owner i : ℕ) (found : Option MediaJob) (j : MediaJob)
    → confirmed owner found ≡ some j
    → ((k : MediaJob) → found ≡ some k → job_id i k ≡ true)
    → (now : ℕ) (rows rows' : List MediaJob)
    → count_rows (λ k. job_id i k && is_claimable now k) rows ≡ 1
    → count_rows (λ k. job_id i k && is_claimable now k) rows' ≡ 0
    → (is_running j.status && equals j.locked_by owner ≡ true)
      × (count_rows (λ k. job_id j.id k && is_claimable now k) rows ≡ 1)
      × (count_rows (λ k. job_id j.id k && is_claimable now k) rows' ≡ 0)
claimed_lem owner i found j e at now rows rows' before after =
    let c = confirmed_lem owner found j e in
    let same : i ≡ j.id = ground (arith, at j c.0) in
    (
      c.1,
      subst (λ (n : ℕ). count_rows (λ k. job_id n k && is_claimable now k) rows ≡ 1) same before,
      subst (λ (n : ℕ). count_rows (λ k. job_id n k && is_claimable now k) rows' ≡ 0) same after,
    )

claim_found_lem :
    (owner : ℕ) (found : Option MediaJob) (s : Jobs) (j : MediaJob)
    → (claim_found owner found s).0 ≡ some j
    → IsClaim owner s j (claim_found owner found s).1
unfolding claim_found
claim_found_lem owner none s j e = absurd (cc)
claim_found_lem owner (some k) s j e =
    let hit = λ (l : MediaJob). job_id k.id l && is_claimable s.now l in
    let rows = update_rows hit (claimed_row owner s.now) s.rows in
    let gone = count_rows-update_zero hit (claimed_row owner s.now) (λ l. ground arith) s.rows in
    elim (Bool-cases (count_rows hit s.rows == 1)) [
      | inr other ↦ let lost : none ≡ some j = rw other at e in absurd (cc)
      | inl one ↦
          let found : confirmed owner (find_row (job_id k.id) rows) ≡ some j = rw one at e in
          rw one (
            claimed_lem owner k.id (find_row (job_id k.id) rows) j found
              (find_row_fits (job_id k.id) rows) s.now s.rows rows (ground arith) gone)
    ]

-- A job that the worker gets is running under the worker's name. Just one claimable row had its
-- number, and none has it afterwards, so no other worker gets the same job.
pub claim_one_exclusive :
    (owner : ℕ) (s : Jobs) (j : MediaJob)
    → (claim_one owner s).0 ≡ some j
    → IsClaim owner s j (claim_one owner s).1
unfolding claim_one
claim_one_exclusive owner s j e = claim_found_lem owner (next_claimable s.now s.rows) s j e

update_none :
    (p : MediaJob → Bool) (f : MediaJob → MediaJob) (js : List MediaJob)
    → count_rows p js ≡ 0
    → update_rows p f js ≡ js
update_none p f [] h = refl
update_none p f (j ∷ js) h = ground (arith, update_none p f js)

-- A worker without a row of its own changes none, whatever the job's outcome.
settle_none :
    (job : MediaJob) (c : Collected) (t : Tally) (s : Jobs)
    → count_rows (is_owned job) s.rows ≡ 0
    → (settle job c t s).1.rows ≡ s.rows
unfolding settle mark_success mark_retry_or_error
settle_none job (report n) t s h = update_none (is_owned job) (success_job s.now) s.rows h
settle_none job (failure e) t s h = elim (Bool-cases (leb (limit_of job) job.attempts)) [
  | inl spent ↦ rw spent (update_none (is_owned job) (error_job e s.now) s.rows h)
  | inr left ↦
      rw left
        (update_none (is_owned job) (requeue_job e (s.now + backoff_seconds job.attempts)) s.rows h)
]

recovered_out : (job j : MediaJob) → is_owned job (recover_job j) ≡ false
recovered_out job j = ground arith

claimed_out :
    (job : MediaJob) (owner owner' now : ℕ) (j : MediaJob)
    → job.locked_by ≡ some owner
    → owner ≢ owner'
    → is_owned job (claimed_row owner' now j) ≡ false
claimed_out job owner owner' now j l d = ground arith

recovered_none :
    (job : MediaJob) (now : ℕ) (js : List MediaJob)
    → All (λ j. is_owned job j ≡ true → is_expired now j ≡ true) js
    → count_rows (is_owned job) (update_rows (is_expired now) recover_job js) ≡ 0
recovered_none job now [] h = refl
recovered_none job now (j ∷ js) h =
    ground (arith, recovered_out job j, recovered_none job now js h.1, h.0)

claimed_none :
    (job : MediaJob) (owner owner' now : ℕ) (p : MediaJob → Bool) (js : List MediaJob)
    → job.locked_by ≡ some owner
    → owner ≢ owner'
    → count_rows (is_owned job) js ≡ 0
    → count_rows (is_owned job) (update_rows p (claimed_row owner' now) js) ≡ 0
claimed_none job owner owner' now p [] l d h = refl
claimed_none job owner owner' now p (j ∷ js) l d h =
    ground
      (arith, claimed_out job owner owner' now j l d, claimed_none job owner owner' now p js l d)

claim_found_none :
    (job : MediaJob) (owner owner' : ℕ) (found : Option MediaJob) (s : Jobs)
    → job.locked_by ≡ some owner
    → owner ≢ owner'
    → count_rows (is_owned job) s.rows ≡ 0
    → count_rows (is_owned job) (claim_found owner' found s).1.rows ≡ 0
unfolding claim_found
claim_found_none job owner owner' none s l d h = h
claim_found_none job owner owner' (some k) s l d h =
    let hit = λ (j : MediaJob). job_id k.id j && is_claimable s.now j in
    let rest = claimed_none job owner owner' s.now hit s.rows l d h in
    elim (Bool-cases (count_rows hit s.rows == 1)) [
      | inl one ↦ rw one rest
      | inr other ↦ rw other rest
    ]

-- A worker whose leases have all expired writes nothing more: once the next run has recovered the
-- rows and has claimed for another name, its report of the job, a success or a failure, changes no
-- row.
pub late_settle :
    (job : MediaJob) (owner owner' : ℕ) (c : Collected) (t : Tally) (s : Jobs)
    → job.locked_by ≡ some owner
    → owner ≢ owner'
    → All (λ j. is_owned job j ≡ true → is_expired s.now j ≡ true) s.rows
    → let s' = (claim_one owner' (recover_expired_running_refresh_jobs s)).1 in
      (settle job c t s').1.rows ≡ s'.rows
unfolding recover_expired_running_refresh_jobs claim_one
late_settle job owner owner' c t s l d h = settle_none job c t _ (
    claim_found_none job owner owner' _ (recover_expired_running_refresh_jobs s) l d
      (recovered_none job s.now s.rows h))
