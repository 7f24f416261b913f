-- ===== src/Signals.antt =====
-- app/core/tasks/runtime_signals.py and app/core/tasks/worker_lease.py: the in-memory signals and
-- the ownership flag. Each method holds its lock throughout, so it is one step.
use vodum.Common.{Bool, true, false, List, [], ◌∷◌, String, str_eq, if◌then◌else◌}
use vodum.Tasks.{value_error}
use vodum.State.{Action, pure, raise, gets, modify, ◌>>=◌, ◌>>◌}

-- The set `_forced_task_runs` as a list with no duplicates.
abbrev pub contains : String → List String → Bool
contains n [] = false
contains n (m ∷ ms) = if str_eq m n then true else contains n ms

abbrev pub add_name : String → List String → List String
add_name n ms = if contains n ms then ms else n ∷ ms

abbrev pub remove_name : String → List String → List String
remove_name n [] = []
remove_name n (m ∷ ms) = if str_eq m n then remove_name n ms else m ∷ remove_name n ms

unfoldable pub mark_auto_enable_dirty : Action Unit
mark_auto_enable_dirty = modify (λ w. record w { dirty = true })

unfoldable pub consume_auto_enable_dirty : Action Bool
consume_auto_enable_dirty = do
  dirty ← gets (λ w. w.dirty)
  if dirty then modify (λ w. record w { dirty = false }) >> pure true else pure false

-- `task_name` is normalised; an empty one raises ValueError.
unfoldable pub force_task_run : String → Action Unit
force_task_run name =
    if str_eq name ""
    then raise value_error
    else modify (λ w. record w { forced = add_name name w.forced })

unfoldable pub consume_forced_task_run : String → Action Bool
consume_forced_task_run name = if str_eq name "" then pure false else do
  found ← gets (λ w. contains name w.forced)
  if found
      then modify (λ w. record w { forced = remove_name name w.forced }) >> pure true
      else pure false

-- `WorkerLease`
unfoldable pub claim : Action Bool
claim = do
  claimed ← gets (λ w. w.claimed)
  if claimed then pure false else modify (λ w. record w { claimed = true }) >> pure true

unfoldable pub release : Action Unit
release = modify (λ w. record w { claimed = false })

unfoldable pub is_claimed : Action Bool
is_claimed = gets (λ w. w.claimed)
