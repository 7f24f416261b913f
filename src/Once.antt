-- ===== src/Once.antt =====
-- app/core/tasks/runtime_signals.py and worker_lease.py: calls of the signals and of the lease in a
-- row.
use vodum.Common.{
  ◌≡◌, refl, ◌↔◌, true, false, List, [], ◌∷◌, String, str_eq, eq_iff, arith, if◌then◌else◌,
}
use vodum.State.{World, ok, actions}
use vodum.Signals.{
  contains, add_name, remove_name, force_task_run, consume_forced_task_run, mark_auto_enable_dirty,
  consume_auto_enable_dirty, claim, release,
}

contains-add :
    (n m : String) (l : List String)
    → contains m (add_name n l) ≡ (if str_eq n m then true else contains m l)
contains-add n m l = ground (arith, eq_iff n m)

pub contains-remove :
    (n m : String) (l : List String)
    → contains m (remove_name n l) ≡ (if str_eq n m then false else contains m l)
contains-remove n m [] = ground arith
contains-remove n m (k ∷ l) =
    ground (arith, eq_iff n m, eq_iff k n, eq_iff k m, contains-remove n m l)

-- Forcing a task makes the next question about it answer True, whatever was forced before; asked
-- again, the answer is False; the answer for every other task is as if nothing had happened.
pub force-consume :
    (n m : String) (w : World)
    → str_eq n "" ≡ false
    → str_eq m "" ≡ false
    → str_eq n m ≡ false
    → let forced = (force_task_run n w).1 in
      let asked = consume_forced_task_run n forced in
      (asked.0 ≡ ok true)
      × ((consume_forced_task_run n asked.1).0 ≡ ok false)
      × ((consume_forced_task_run m asked.1).0 ≡ (consume_forced_task_run m w).0)
unfolding force_task_run consume_forced_task_run actions
force-consume n m w hn hm d = (
  ground (arith, contains-add n n w.forced, eq_iff n n),
  ground (arith, contains-add n n w.forced, eq_iff n n, contains-remove n n (add_name n w.forced)),
  ground (
    arith,
    contains-add n n w.forced,
    contains-add n m w.forced,
    eq_iff n n,
    contains-remove n m (add_name n w.forced),
  ),
)

-- The mark for the automatic pass is consumed once.
pub dirty_once :
    (w : World)
    → let asked = consume_auto_enable_dirty (mark_auto_enable_dirty w).1 in
      (asked.0 ≡ ok true) × ((consume_auto_enable_dirty asked.1).0 ≡ ok false)
unfolding mark_auto_enable_dirty consume_auto_enable_dirty actions
dirty_once w = (refl, refl)

-- Two claims of the lease in a row never both succeed; after a release the next claim does.
pub claim_exclusive :
    (w : World)
    → let first = claim w in
      ((claim first.1).0 ≡ ok false)
      × ((claim (release first.1).1).0 ≡ ok true)
      × ((first.0 ≡ ok true) ↔ (w.claimed ≡ false))
unfolding claim release actions
claim_exclusive w = (ground arith, ground arith, (ground arith, ground arith))
