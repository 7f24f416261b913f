-- ===== src/Sequences.antt =====
-- app/core/tasks/sequence_queue.py and sequences.py: sequences of tasks that run one after another.
-- The lock of the queue makes each method one step. What the rest of the program does while a
-- sequence waits is a parameter.
use vodum.Common.{
  ℕ, zero, suc, ◌+◌, Bool, true, false, not, Option, none, some, List, [], ◌∷◌, ◌++◌, String, ltb,
  ◌==◌, length, find_row, if◌then◌else◌,
}
use vodum.Tasks.{
  Task, is_error, is_idle, is_disabled, has_id, has_name, value_error, timeout_error, thread_error,
}
use vodum.State.{
  Provider, World, Result, ok, raised, Action, pure, raise, gets, modify, ◌>>=◌, ◌>>◌, try_except,
  request, query,
}
use vodum.Engine.{enqueue_task}

-- `TaskSequenceQueue`
pub record SequenceQueue : Type 0 where
  pub items : List (List String)
  pub worker_running : Bool

-- `TaskSequenceQueue.enqueue`: whether the caller must start a worker.
unfoldable pub enqueue : List String → SequenceQueue → Result Bool × SequenceQueue
enqueue [] q = (raised value_error, q)
enqueue (n ∷ ns) q =
    let items = q.items ++ (n ∷ ns) ∷ [] in
    if q.worker_running
    then (ok false, record q { items = items })
    else (ok true, record q { items = items; worker_running = true })

take_from : List (List String) → SequenceQueue → Option (List String) × SequenceQueue
take_from [] q = (none, record q { worker_running = false })
take_from (s ∷ rest) q = (some s, record q { items = rest })

unfoldable pub take_next : SequenceQueue → Option (List String) × SequenceQueue
unfolding take_from
take_next q = take_from q.items q

-- What several callers submit; an empty sequence is refused.
abbrev pub enqueue_all : List (List String) → SequenceQueue → SequenceQueue
enqueue_all [] q = q
enqueue_all (s ∷ ss) q = enqueue_all ss (enqueue s q).1

unfoldable pub pending_count : SequenceQueue → ℕ
pending_count q = length q.items

-- `TaskSequenceRunner.enqueue`; the start of the thread may raise.
start_if : Result Bool → SequenceQueue → World → Result (Unit {0}) × SequenceQueue × World
start_if (raised e) q w = (raised e, q, w)
start_if (ok false) q w = (ok tt, q, w)
start_if (ok true) q w = let (r, w') = request thread_error w in (r, q, w')

unfoldable pub enqueue_sequence :
    List String → SequenceQueue → World → Result (Unit {0}) × SequenceQueue × World
unfolding start_if
enqueue_sequence names q w = let (r, q') = enqueue names q in start_if r q' w

-- `str(last_run) != str(last_run_before)`, where there is a run.
abbrev has_changed : ℕ → Option ℕ → Bool
has_changed before none = false
has_changed before (some now) = not (now == before)

-- The tests of `wait_for_completion` on the row that it reads.
unfoldable pub has_completed : Option ℕ → Option Task → Bool
has_completed before none = true
has_completed before (some t) = if is_error t.status then true else elim before [
  | some run ↦ has_changed run t.last_run
  | none ↦ if is_idle t.status then true else is_disabled t.status
]

module _ (others : ℕ → World → World) where
  -- The `while` loop; it answers false if the fuel runs out.
  unfoldable pub wait_polls : ℕ → ℕ → ℕ → String → Option ℕ → Action Bool
  wait_polls zero started timeout name before = pure false
  wait_polls (suc fuel) started timeout name before = do
    row ← query (λ db. find_row (has_name name) db.tasks)
    if has_completed before row then pure true else do
      now ← gets (λ w. w.utc)
      if ltb (started + timeout) now
          then raise timeout_error
          else modify (others fuel) >> wait_polls fuel started timeout name before

  unfoldable pub wait_for_completion : String → Option ℕ → ℕ → Action Bool
  wait_for_completion name before timeout = do
    started ← gets (λ w. w.utc)
    wait_polls (suc (timeout + 1)) started timeout name before

  abbrev pub last_run_of : Option Task → Option ℕ
  last_run_of none = none
  last_run_of (some t) = t.last_run

  -- `TaskSequenceRunner.run`. A wait without fuel is no completion, but ends the run.
  unfoldable pub run_sequence : List String → Action (Unit {0})
  run_sequence [] = pure tt
  run_sequence (n ∷ ns) = do
    row ← query (λ db. find_row (has_name n) db.tasks)
    elim row [
      | none ↦ run_sequence ns
      | some t ↦ do
        before ← query (λ db. last_run_of (find_row (has_id t.id) db.tasks))
        queued ← enqueue_task t.id
        if queued
            then (wait_for_completion n before 1800 >>= λ done.
                if done then run_sequence ns else raise timeout_error)
            else run_sequence ns
    ]

  -- `TaskSequenceRunner._worker`, on fuel. While a sequence runs, callers submit those of `arriving`.
  unfoldable pub sequence_worker :
      (ℕ → List (List String)) → ℕ → SequenceQueue → Action SequenceQueue
  sequence_worker arriving zero q = pure q
  sequence_worker arriving (suc fuel) q =
      let (next, q') = take_next q in
      elim next [
        | none ↦ pure q'
        | some names ↦
            try_except (run_sequence names) (λ _. pure tt)
            >> sequence_worker arriving fuel (enqueue_all (arriving fuel) q')
      ]

unfoldable pub discovery_sequence_for_provider : Provider → List String
discovery_sequence_for_provider Provider.plex = "check_servers" ∷ "sync_plex" ∷ []
discovery_sequence_for_provider Provider.jellyfin = "check_servers" ∷ "sync_jellyfin" ∷ []
discovery_sequence_for_provider _ = "check_servers" ∷ []
