-- ===== src/Finishing.antt =====
-- app/core/tasks/execution.py, with the functions of app/tasks_engine.py that it calls: the state in
-- which a run leaves its task.
use vodum.Common.{
  ℕ, Bool, true, false, ◌≡◌, refl, Option, none, some, List, [], ◌∷◌, String, find_row,
  Option-cases, inl, inr, arith,
}
use vodum.Tasks.{Task, Error, has_id}
use vodum.State.{
  World, Result, ok, raised, Action, Quiet, caught, quiet_rules, Quiet-try_except, Quiet-bind,
  Quiet-pure, ◌>>◌, Provider, pure, try_finally, ◌>>=◌, finish, and_then, actions,
}
use vodum.Rules.{Croniter}
use vodum.Config.{
  set_task_enabled_for_auto_mode, set_tasks_enabled_by_names_for_auto_mode, with_named, on_row,
}
use vodum.AutoEnable.{set_named_task, monitoring, sync_provider, sync_providers}
use vodum.Engine.{
  Context, found_running, failsafe_row, store_failure, mark_task_retry_or_error, reevaluate,
  plan_next, reschedule, handle_task_success, mark_task_running, finalize_task_running_failsafe,
  load_task_execution_context,
}
use vodum.Runner.{Job, Loader, finalize, run_job, run_loaded, run_context, run}
use vodum.WellFormed.{find_row-update_self}

store_failure-Quiet : (i : ℕ) (e : Error) (r : Option Task) → Quiet (store_failure i e r)
unfolding store_failure
store_failure-Quiet i e r = search quiet_rules

mark_failure-Quiet : (i : ℕ) (e : Error) → Quiet (mark_task_retry_or_error i e)
unfolding mark_task_retry_or_error
mark_failure-Quiet i e = search (quiet_rules, store_failure-Quiet) depth 8

auto_mode-Quiet : (i : ℕ) (e : Bool) → Quiet (set_task_enabled_for_auto_mode i e)
unfolding set_task_enabled_for_auto_mode
auto_mode-Quiet i true = search quiet_rules
auto_mode-Quiet i false = search quiet_rules

names-Quiet : (ns : List String) (e : Bool) → Quiet (set_tasks_enabled_by_names_for_auto_mode ns e)
unfolding set_tasks_enabled_by_names_for_auto_mode
names-Quiet [] e = search quiet_rules
names-Quiet (n ∷ ns) true = search quiet_rules
names-Quiet (n ∷ ns) false = search quiet_rules

on_row-Quiet :
    (r : Option Task) (act : ℕ → Action Unit) → ((i : ℕ) → Quiet (act i)) → Quiet (on_row r act)
unfolding on_row
on_row-Quiet none act k = search quiet_rules
on_row-Quiet (some t) act k = k t.id

set_named_task-Quiet : (n : String) (e : Bool) → Quiet (set_named_task n e)
unfolding set_named_task with_named
set_named_task-Quiet n e = search (quiet_rules, on_row-Quiet, auto_mode-Quiet) depth 10

sync_provider-Quiet : (p : Provider) (n : String) → Quiet (sync_provider p n)
unfolding sync_provider
sync_provider-Quiet p n = search (quiet_rules, set_named_task-Quiet)

sync_providers-Quiet : Quiet sync_providers
unfolding sync_providers
sync_providers-Quiet = search (quiet_rules, sync_provider-Quiet)

monitoring-Quiet : Quiet monitoring
unfolding monitoring
monitoring-Quiet = search (quiet_rules, names-Quiet) depth 8

reevaluate-Quiet : (n : String) → Quiet (reevaluate n)
unfolding reevaluate
reevaluate-Quiet n = search (quiet_rules, sync_providers-Quiet, monitoring-Quiet) depth 8

module _ (croniter : Croniter) where
  plan_next-Quiet : (i : ℕ) (s : String) → Quiet (plan_next croniter i s)
  unfolding plan_next
  plan_next-Quiet i s = search quiet_rules depth 10

  reschedule-Quiet : (i : ℕ) (s : Option String) → Quiet (reschedule croniter i s)
  unfolding reschedule
  reschedule-Quiet i none = search quiet_rules
  reschedule-Quiet i (some s) = search (quiet_rules, plan_next-Quiet) depth 8

  success-Quiet :
      (i : ℕ) (n : String) (s : Option String) → Quiet (handle_task_success croniter i n s)
  unfolding handle_task_success
  success-Quiet i n s = search (quiet_rules, reevaluate-Quiet, reschedule-Quiet) depth 8

  run_job-Quiet :
      (i : ℕ) (c : Context) (started : ℕ) (job : Job)
      → Quiet (job i)
      → Quiet (run_job croniter i c started job)
  unfolding run_job
  run_job-Quiet i c started job k = search (quiet_rules, success-Quiet) depth 12

-- Whether row `i`, if there is one, runs.
abbrev pub is_left_running : ℕ → World → Bool
is_left_running i w = found_running (find_row (has_id i) w.db.tasks)

finalize_stops : (i : ℕ) (w : World) → w.faults ≡ [] → is_left_running i (finalize i w).1 ≡ false
unfolding finalize finalize_task_running_failsafe actions
finalize_stops i w q = elim (Option-cases (find_row (has_id i) w.db.tasks)) [
  | inl missing ↦ ground arith
  | inr (t, found) ↦
      ground (arith, find_row-update_self i (failsafe_row w.utc) w.db.tasks t (λ u. refl) found)
]

stops_then :
    {A : Type 0} (i : ℕ) (a : A) (w : World)
    → w.faults ≡ []
    → is_left_running i ((finalize i >> pure a) w).1 ≡ false
unfolding ◌>>=◌ pure
stops_then {A = A} i a w q = go (finalize i w) (finalize_stops i w q)
  where
    go :
        (o : Result {0} (Unit {0}) × World)
        → is_left_running i o.1 ≡ false
        → is_left_running i (and_then o (λ _ v. (ok a, v))).1 ≡ false
    go (ok b, v) h = h
    go (raised e, v) h = h

finally_stops :
    {A : Type 0} (i : ℕ) (m : Action A) (w : World)
    → Quiet m
    → w.faults ≡ []
    → is_left_running i (try_finally m (finalize i) w).1 ≡ false
unfolding try_finally
finally_stops {A = A} i m w k q = outer (m w) (k.at w q)
  where
    last :
        (r : Result A) (o : Result {0} (Unit {0}) × World)
        → is_left_running i o.1 ≡ false
        → is_left_running i (and_then o (λ _ v. (r, v))).1 ≡ false
    last r (ok b, v) h = h
    last r (raised e, v) h = h

    outer :
        (o : Result A × World)
        → o.1.faults ≡ []
        → is_left_running i (finish o (finalize i)).1 ≡ false
    outer (r, v) s = last r (finalize i v) (finalize_stops i v s)

-- The failure is stored, or what goes wrong is only logged.
mark_ok :
    (i : ℕ) (e : Error) (w : World) → (w' : World) × (mark_task_retry_or_error i e w ≡ (ok tt, w'))
unfolding mark_task_retry_or_error
mark_ok i e w = caught _ w

module _ (croniter : Croniter) where
  run_loaded_stops :
      (i : ℕ) (c : Context) (started : ℕ) (job : Result Job) (w : World)
      → ((j : Job) → job ≡ ok j → Quiet (j i))
      → w.faults ≡ []
      → is_left_running i (run_loaded croniter i c started job w).1 ≡ false
  unfolding run_loaded ◌>>=◌ pure
  run_loaded_stops i c started (raised e) w k q =
      let marked = mark_ok i e w in
      let still = (mark_failure-Quiet i e).at w q in
      rw marked.1 (stops_then i none marked.0 (rw marked.1 at still))
  run_loaded_stops i c started (ok j) w k q =
      finally_stops i _ w
        (Quiet-try_except _ _ (run_job-Quiet croniter i c started j (k j refl))
          (λ e. Quiet-bind _ _ (mark_failure-Quiet i e) (λ _. Quiet-pure none)))
        q

  module _ (loader : Loader)
      (quiet : (n : String) (j : Job) → loader n ≡ ok j → (i : ℕ) → Quiet (j i)) where
    -- However a run of a task ends, normally, with an error of the task or with one that its result
    -- stands for, the task is not left running, if no request is refused: none is to come when the
    -- run starts, and the function of the task brings none in.
    pub run_stops :
        (i : ℕ) (w : World) → w.faults ≡ [] → is_left_running i (run croniter loader i w).1 ≡ false
    unfolding run run_context load_task_execution_context mark_task_running actions
    run_stops i w q = elim (Option-cases (find_row (has_id i) w.db.tasks)) [
      | inl missing ↦ ground arith
      | inr (t, found) ↦
          rw (q, found) (run_loaded_stops i _ _ (loader t.name) _ (λ j e. quiet t.name j e i) refl)
    ]
