-- ===== src/Jellyfin/Blocked.antt =====
-- app/tasks/apply_jellyfin_access_updates.py: jobs that keep others from their turn.
use vodum.Common.{
  ℕ, zero, suc, All-where_rows, ◌≤◌, ◌<◌, All, ltb, count_rows, where_rows, sort_by, All-sort_by,
  where_rows-fit, take, take-few, sort_by-IsSorted, count_rows-sort_by, Bool-cases, inl, inr, ◌&&◌,
  ap, ◌∙◌, ◌≡◌, refl, Bool, true, false, not, none, some, List, [], ◌∷◌, any, find_row, arith,
}
use vodum.State.{ok}
use vodum.Cooldown.{is_server}
use vodum.Media.{MediaJob}
use vodum.Jellyfin.{
  is_pending_access, is_older, Jellyfin, Access, fetch_pending_jobs, is_skipped, run_job, run_jobs,
  run,
}

-- The server of the job is down or in its pause.
abbrev pub is_blocked : Access → MediaJob → Bool
is_blocked s j = elim j.server_id [
  | none ↦ false
  | some i ↦ is_skipped s.jobs.now (find_row (is_server i) s.servers)
]

run_job-blocked :
    (jf : Jellyfin) (j : MediaJob) (s : Access)
    → is_blocked s j ≡ true
    → run_job jf j s ≡ (ok tt, s)
unfolding run_job
run_job-blocked jf j s h = ground arith

run_jobs-step :
    (jf : Jellyfin) (j : MediaJob) (js : List MediaJob) (s t : Access)
    → run_job jf j s ≡ (ok tt, t)
    → run_jobs jf (j ∷ js) s ≡ run_jobs jf js t
unfolding run_jobs
run_jobs-step jf j js s t e =
    let first : run_jobs jf (j ∷ js) s ≡ run_jobs jf js (run_job jf j s).1 =
      rw (run_jobs, ap (λ r. r.0) e) refl in
    first ∙ ap (λ r. run_jobs jf js r.1) e

run_jobs-blocked :
    (jf : Jellyfin) (js : List MediaJob) (s : Access)
    → any (λ j. not (is_blocked s j)) js ≡ false
    → run_jobs jf js s ≡ (ok tt, s)
unfolding run_jobs
run_jobs-blocked jf [] s h = refl
run_jobs-blocked jf (j ∷ js) s h =
    run_jobs-step jf j js s s (run_job-blocked jf j s (ground arith))
    ∙ run_jobs-blocked jf js s (ground arith)

-- If the job waits and is not blocked, 50 older jobs wait that are.
abbrev pub IsBehind : Access → MediaJob → Type 0
IsBehind s j =
    is_pending_access j ≡ true
    → is_blocked s j ≡ false
    → 50
      ≤ count_rows (λ k. is_pending_access k && (is_blocked s k && ltb k.created_at j.created_at))
          s.jobs.rows

count-older :
    (s : Access) (j : MediaJob) (ks : List MediaJob)
    → count_rows (λ k. is_pending_access k && (is_blocked s k && ltb k.created_at j.created_at)) ks
      ≤ count_rows (λ k. not (is_older j k)) (where_rows is_pending_access ks)
count-older s j [] = omega arith
count-older s j (k ∷ ks) = ground (arith, count-older s j ks)

any-blocked :
    (s : Access) (js : List MediaJob)
    → All (IsBehind s) js
    → All (λ j. is_pending_access j ≡ true) js
    → All
        (λ j.
          count_rows
            (λ k. not (is_older j k))
            (sort_by is_older (where_rows is_pending_access s.jobs.rows))
          < 50)
        js
    → any (λ j. not (is_blocked s j)) js ≡ false
any-blocked s [] h waits few = refl
any-blocked s (j ∷ js) h waits few =
    let rest = any-blocked s js h.1 waits.1 few.1 in
    let waiting = where_rows is_pending_access s.jobs.rows in
    elim (Bool-cases (is_blocked s j)) [
      | inl stuck ↦ ground (arith, rest, stuck)
      | inr open_one ↦ absurd (
          omega (
            arith,
            h.0 waits.0 open_one,
            count-older s j s.jobs.rows,
            count_rows-sort_by (λ k. not (is_older j k)) is_older waiting,
            few.0,
          ))
    ]

All-take : (P : MediaJob → Type 0) (n : ℕ) (js : List MediaJob) → All P js → All P (take n js)
All-take P zero js h = tt
All-take P (suc n) [] h = tt
All-take P (suc n) (j ∷ js) h = (h.0, All-take P n js h.1)

All-fetched :
    (P : MediaJob → Type 0) (js : List MediaJob) → All P js → All P (take 50 (sort_by is_older js))
All-fetched P js h = All-take P 50 (sort_by is_older js) (All-sort_by P is_older js h)

fetched-blocked :
    (s : Access)
    → All (IsBehind s) s.jobs.rows
    → any (λ j. not (is_blocked s j)) (fetch_pending_jobs s.jobs) ≡ false
unfolding fetch_pending_jobs
fetched-blocked s h =
    let waiting = where_rows is_pending_access s.jobs.rows in
    any-blocked s (take 50 (sort_by is_older waiting))
      (All-fetched (IsBehind s) waiting
        (All-where_rows (IsBehind s) is_pending_access s.jobs.rows h))
      (All-fetched _ waiting (where_rows-fit is_pending_access s.jobs.rows))
      (take-few is_older (λ j k e. ground (arith, e)) (λ j k l e f. ground (arith, e, f)) 50
        (sort_by is_older waiting)
        (sort_by-IsSorted is_older (λ j k e. ground (arith, e)) (λ j k l e f. ground (arith, e, f))
          waiting))

-- If each waiting job, but those for servers that are down or in their pause, has 50 older waiting jobs
-- for such servers before it, a run does nothing: none of these younger jobs is looked at.
pub blocked_jobs_starve :
    (jf : Jellyfin) (s : Access) → All (IsBehind s) s.jobs.rows → run jf s ≡ (ok tt, s)
unfolding run
blocked_jobs_starve jf s h = run_jobs-blocked jf (fetch_pending_jobs s.jobs) s (fetched-blocked s h)
