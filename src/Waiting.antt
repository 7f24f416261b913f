-- ===== src/Waiting.antt =====
-- app/core/tasks/sequences.py: the waits for a task, and the worker on its queue.
use vodum.Common.{
  ◌≤◌, ◌++◌, ℕ, zero, suc, ◌+◌, ◌<◌, ◌≡◌, ◌≢◌, false, Option, List, [], ◌∷◌, String, ltb, find_row,
  length, arith, Bool-cases, inl, inr,
}
use vodum.Tasks.{has_name}
use vodum.State.{World, ok, query-cases, actions}
use vodum.Sequences.{
  SequenceQueue, has_completed, wait_polls, wait_for_completion, run_sequence, sequence_worker,
}

module _ (others : ℕ → World → World) (later : (n : ℕ) (w : World) → w.utc < (others n w).utc) where
  wait_polls_ends :
      (fuel started timeout : ℕ) (name : String) (before : Option ℕ) (w : World)
      → started + timeout < w.utc + fuel
      → (wait_polls others (suc fuel) started timeout name before w).0 ≢ ok false
  unfolding wait_polls actions
  wait_polls_ends zero started timeout name before w h =
      elim (query-cases (λ db. find_row (has_name name) db.tasks) w) [
        | inr (l, q) ↦ rw q (λ e. cc)
        | inl (l, q) ↦
            rw q (elim (Bool-cases (has_completed before (find_row (has_name name) w.db.tasks))) [
              | inl done ↦ rw done (λ e. cc)
              | inr going ↦ rw going (elim (Bool-cases (ltb (started + timeout) w.utc)) [
                | inl late ↦ rw late (λ e. cc)
                | inr early ↦ rw early (λ e. ground arith)
              ])
            ])
      ]
  wait_polls_ends (suc fuel) started timeout name before w h =
      elim (query-cases (λ db. find_row (has_name name) db.tasks) w) [
        | inr (l, q) ↦ rw q (λ e. cc)
        | inl (l, q) ↦
            rw q (elim (Bool-cases (has_completed before (find_row (has_name name) w.db.tasks))) [
              | inl done ↦ rw done (λ e. cc)
              | inr going ↦ rw going (elim (Bool-cases (ltb (started + timeout) w.utc)) [
                | inl late ↦ rw late (λ e. cc)
                | inr early ↦ rw early (
                    wait_polls_ends fuel started timeout name before
                      (others (suc fuel) (record w { faults = l }))
                      (omega (arith, later (suc fuel) (record w { faults = l }))))
              ])
            ])
      ]

  -- A wait ends by itself, with the task's end, a timeout or an error of SQLite, if time passes while
  -- it sleeps: it needs no more polls than the timeout has seconds, and two.
  pub wait_for_completion_ends :
      (name : String) (before : Option ℕ) (timeout : ℕ) (w : World)
      → (wait_for_completion others name before timeout w).0 ≢ ok false
  unfolding wait_for_completion actions
  wait_for_completion_ends name before timeout w =
      wait_polls_ends (timeout + 1) w.utc timeout name before w (omega arith)

-- The sequences that several callers add to the queue.
record IsAdded (q q' : SequenceQueue) (limit : ℕ) : Type 0 where
  added : List (List String)
  few : length added ≤ limit
  items : q'.items ≡ q.items ++ added

-- How many sequences arrive in so many turns.
abbrev pub arrivals : (ℕ → List (List String)) → ℕ → ℕ
arrivals arriving zero = 0
arrivals arriving (suc fuel) = length (arriving fuel) + arrivals arriving fuel

-- The world after the sequences have run one after another, each to its end or to an exception.
abbrev pub run_all : (ℕ → World → World) → List (List String) → World → World
run_all others [] w = w
run_all others (s ∷ ss) w = run_all others ss (run_sequence others s w).1

module _ (others : ℕ → World → World) (arriving : ℕ → List (List String)) where
  abbrev Drains : ℕ → SequenceQueue → World → Type 0
  Drains fuel q w =
      (more : List (List String)) × (length more ≤ arrivals arriving fuel)
      × (sequence_worker others arriving fuel q w ≡ (
        ok (record { items = []; worker_running = false }),
        run_all others (q.items ++ more) w,
      ))
