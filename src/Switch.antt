-- ===== src/Switch.antt =====
-- app/core/tasks/configuration.py, `apply_cron_master_switch`: off and on again.
use vodum.Common.{
  ℕ, ◌≡◌, refl, ap₂, ◌∙◌, true, false, List, [], ◌∷◌, map, update_rows, arith, count_rows,
}
use vodum.Tasks.{Task}
use vodum.State.{World, actions}
use vodum.Config.{apply_cron_master_switch, switch_off_row, switch_on_row, remembered, all_rows}
use vodum.Engine.{is_waiting}

-- The world with the rows changed by one of the two updates.
abbrev with_rows : (ℕ → Task → Task) → World → World
with_rows f w = record w { db = record w.db { tasks = update_rows all_rows (f w.utc) w.db.tasks } }

switched_off :
    (w : World) → w.faults ≡ [] → (apply_cron_master_switch false w).1 ≡ with_rows switch_off_row w
unfolding apply_cron_master_switch actions
switched_off w q = ground arith

switched_on :
    (w : World) → w.faults ≡ [] → (apply_cron_master_switch true w).1 ≡ with_rows switch_on_row w
unfolding apply_cron_master_switch actions
switched_on w q = ground arith

off_on_enabled :
    (m n : ℕ) (ts : List Task)
    → map
        (λ t. t.enabled)
        (update_rows all_rows (switch_on_row n) (update_rows all_rows (switch_off_row m) ts))
      ≡ map remembered ts
off_on_enabled m n [] = refl
off_on_enabled m n (t ∷ ts) = ap₂ ◌∷◌ refl (off_on_enabled m n ts)

remembered_off :
    (n : ℕ) (ts : List Task)
    → map remembered (update_rows all_rows (switch_off_row n) ts) ≡ map remembered ts
remembered_off n [] = refl
remembered_off n (t ∷ ts) = ap₂ ◌∷◌ refl (remembered_off n ts)

none_waits :
    (m : ℕ) (ts : List Task)
    → count_rows is_waiting (update_rows all_rows (switch_off_row m) ts) ≡ 0
none_waits m [] = refl
none_waits m (t ∷ ts) = ground (arith, none_waits m ts)

-- Where no request fails: while the master switch is off no task waits for the worker, and turning it
-- off and on again, also off twice, enables just the tasks that an earlier switch off remembers as
-- enabled, and of those for which nothing is remembered the ones that were enabled. A task that was
-- enabled while something else is remembered for it ends as it is remembered.
pub switch_roundtrip :
    (w : World)
    → w.faults ≡ []
    → let off = (apply_cron_master_switch false w).1 in
      let twice = (apply_cron_master_switch false off).1 in
      (count_rows is_waiting off.db.tasks ≡ 0)
      × (map (λ t. t.enabled) (apply_cron_master_switch true off).1.db.tasks
          ≡ map remembered w.db.tasks)
      × (map (λ t. t.enabled) (apply_cron_master_switch true twice).1.db.tasks
          ≡ map remembered w.db.tasks)
switch_roundtrip w q = (
  rw (switched_off w q) (none_waits w.utc w.db.tasks),
  rw (switched_off w q, switched_on off q) (off_on_enabled w.utc w.utc w.db.tasks),
  rw (switched_off w q, switched_off off q, switched_on (with_rows switch_off_row off) q)
      (off_on_enabled w.utc w.utc off.db.tasks ∙ remembered_off w.utc w.db.tasks),
)
  where
    off : World
    off = with_rows switch_off_row w
