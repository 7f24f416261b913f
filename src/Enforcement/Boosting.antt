-- ===== src/Enforcement/Boosting.antt =====
-- app/core/stream_enforcer_boost.py: the interval of the task is shortened for a while after a stream
-- of an expired subscription was stopped.
use vodum.Common.{
  ℕ, ◌+◌, ◌*◌, Bool, true, false, ◌&&◌, Option, none, some, List, ltb, ◌==◌, count_rows,
  if◌then◌else◌,
}
use vodum.Enforcement.Store.{Enforced, Action, is_since}

abbrev pub normal_interval_seconds : ℕ
normal_interval_seconds = 15

abbrev pub boost_interval_seconds : ℕ
boost_interval_seconds = 5

abbrev pub boost_kill_threshold : ℕ
boost_kill_threshold = 1

abbrev pub boost_window_minutes : ℕ
boost_window_minutes = 10

abbrev pub boost_duration_minutes : ℕ
boost_duration_minutes = 30

-- Of the settings the column stream_enforcer_boost_until, and of the task's row its interval, NULL or
-- a number, and whether the mode is `interval`.
pub record Boost : Type 0 where
  pub boost_until : Option ℕ
  pub interval_seconds : Option ℕ
  pub is_interval_mode : Bool

unfoldable pub set_interval : ℕ → Boost → Boost
set_interval seconds b = record b { interval_seconds = some seconds; is_interval_mode = true }

-- `int(row["interval_seconds"] or NORMAL_INTERVAL_SECONDS)`
unfoldable pub get_interval : Boost → ℕ
get_interval b = elim b.interval_seconds [
  | none ↦ normal_interval_seconds
  | some n ↦ if n == 0 then normal_interval_seconds else n
]

abbrev pub is_boosted : ℕ → Option ℕ → Bool
is_boosted now none = false
is_boosted now (some t) = ltb now t

abbrev pub ensure_interval : ℕ → Boost → Boost
unfolding set_interval get_interval
ensure_interval seconds b = if get_interval b == seconds then b else set_interval seconds b

unfoldable pub refresh_boost_state : ℕ → Boost → Boost
unfolding set_interval get_interval
refresh_boost_state now b =
    if is_boosted now b.boost_until
    then ensure_interval boost_interval_seconds b
    else ensure_interval normal_interval_seconds (record b { boost_until = none })

-- `vodum_user_id = ?` is false for NULL.
abbrev pub is_recent_kill : ℕ → ℕ → ℕ → Enforced → Bool
is_recent_kill now policy_id user r =
    r.policy_id == policy_id
    && elim r.vodum_user_id [ none ↦ false | some u ↦ u == user ]
    && elim r.action [ Action.kill ↦ true | _ ↦ false ]
    && is_since now boost_window_minutes (some r.created_at)

unfoldable pub maybe_boost_after_expired_kill : ℕ → ℕ → Option ℕ → List Enforced → Boost → Boost
unfolding set_interval
maybe_boost_after_expired_kill now policy_id none log b = b
maybe_boost_after_expired_kill now policy_id (some user) log b =
    if ltb (count_rows (is_recent_kill now policy_id user) log) boost_kill_threshold
    then b
    else set_interval boost_interval_seconds
        (record b { boost_until = some (now + 60 * boost_duration_minutes) })
