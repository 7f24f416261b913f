-- ===== src/Enforcement/Enforce.antt =====
-- app/tasks/stream_enforcer.py, `run`, the second part: what is done about one violation, and the run
-- as a whole. A result is the new world, and whether no exception has left the code.
use vodum.Common.{
  ℕ, zero, suc, ◌+◌, ◌-◌, Bool, true, false, ◌&&◌, ◌||◌, Option, none, some, List, [], ◌∷◌, ◌++◌,
  map, String, leb, if◌then◌else◌,
}
use vodum.State.{Provider}
use vodum.AutoEnable.{is_provider}
use vodum.Policies.{Session, Violation, pick_kill_target}
use vodum.Enforcement.Rules.{StreamPolicy, Caches, Context}
use vodum.Enforcement.Evaluate.{
  evaluate_policy, recheck_violation, is_strict_expired_subscription_policy,
}
use vodum.Enforcement.Store.{Action, already_warned_recently}
use vodum.Enforcement.Boosting.{refresh_boost_state, maybe_boost_after_expired_kill}
use vodum.Enforcement.Load.{live_stable_seconds, load_enabled_policies}
use vodum.Enforcement.Run.{
  Outside, World, Outcome, Call, live_at, context_at, wait, call, jellyfin_session_id_from_target,
  log_action, note_state, kill_target, recheck_delay_seconds, pre_kill_duration_seconds,
  pre_kill_interval_seconds,
}

-- The policy of an expired subscription: no warning and no second look.
unfoldable pub boost_after : Outcome → StreamPolicy → Violation → World → World
boost_after Outcome.raised p v w = w
boost_after Outcome.done p v w = record w {
  boost = maybe_boost_after_expired_kill w.clock p.id v.user_id w.log w.boost;
}
boost_after Outcome.refused p v w = record w {
  boost = maybe_boost_after_expired_kill w.clock p.id v.user_id w.log w.boost;
}

unfoldable pub kill_immediately : Outside → StreamPolicy → Violation → Session → World → World
kill_immediately o p v t w =
    boost_after (o.terminate_session w.clock v.server_id t.session_key) p v
      (kill_target o p v t v.user_id v.actor w)

unfoldable pub record_warning : StreamPolicy → Violation → Session → World → World
record_warning p v t w =
    note_state p v v.user_id v.actor true false (log_action p v t v.user_id v.actor Action.warn w)

-- What follows `_warn_session`, which stands outside every `try`.
unfoldable pub settle_warning : Outcome → StreamPolicy → Violation → Session → World → World × Bool
settle_warning Outcome.raised p v t w = (w, false)
settle_warning Outcome.done p v t w = (record_warning p v t w, true)
settle_warning Outcome.refused p v t w = (record_warning p v t w, true)

unfoldable pub warn_target : Outside → StreamPolicy → Violation → Session → World → World × Bool
warn_target o p v t w =
    if is_provider Provider.jellyfin v.provider
    then (let key = jellyfin_session_id_from_target t in
        settle_warning (o.send_session_message w.clock v.server_id key) p v t
          (call (Call.message v.server_id key) w))
    else (record_warning p v t w, true)

unfoldable pub warn_once : Outside → StreamPolicy → Violation → Session → World → World × Bool
warn_once o p v t w =
    if already_warned_recently w.clock p.id v.server_id v.user_id v.actor 5 w.rows
    then (w, true)
    else warn_target o p v t w

-- `min(interval, remaining)`
abbrev pub min : ℕ → ℕ → ℕ
min a b = if leb a b then a else b

abbrev pub go_on : Outcome → World → World → World
go_on Outcome.raised sent rest = sent
go_on Outcome.done sent rest = rest
go_on Outcome.refused sent rest = rest

-- The messages before a stop, with fuel. An exception ends them.
unfoldable pub pre_kill : Outside → ℕ → String → ℕ → ℕ → World → World
pre_kill o server_id key zero elapsed w = w
pre_kill o server_id key (suc fuel) elapsed w =
    let sent = call (Call.message server_id key) w in
    let sleep_for = min pre_kill_interval_seconds (pre_kill_duration_seconds - elapsed) in
    let rest = pre_kill o server_id key fuel (elapsed + sleep_for) (wait sleep_for sent) in
    if leb pre_kill_duration_seconds elapsed
    then w
    else go_on (o.send_session_message w.clock server_id key) sent rest

-- Each message takes a second at least, so that this is fuel enough.
abbrev pub pre_kill_fuel : ℕ
pre_kill_fuel = 61

unfoldable pub annoy_target : Outside → Violation → Session → World → World
annoy_target o v t w =
    if is_provider Provider.jellyfin v.provider
    then pre_kill o v.server_id (jellyfin_session_id_from_target t) pre_kill_fuel 0 w
    else w

-- The violation `again` is the one that was found by the second look.
unfoldable pub stop_confirmed :
    Outside → StreamPolicy → Violation → Violation → Option Session → World → World
stop_confirmed o p v again none w = w
stop_confirmed o p v again (some t) w =
    if o.has_server w.clock again.server_id
    then kill_target o p again t v.user_id v.actor (annoy_target o again t w)
    else w

unfoldable pub act_on : Outside → StreamPolicy → Violation → Option Violation → World → World
act_on o p v none w = w
act_on o p v (some again) w =
    stop_confirmed o p v again (pick_kill_target again.sessions again.selector) w

-- What the second look finds, from the time of the first and the caches.
abbrev pub recheck_at : Outside → StreamPolicy → Violation → ℕ → Caches → Option Violation × Caches
recheck_at o p v now c =
    let later = now + recheck_delay_seconds in
    recheck_violation (context_at o later) p v (live_at o live_stable_seconds later) c

unfoldable pub second_look : Outside → StreamPolicy → Violation → World → World
second_look o p v w =
    let seen = recheck_at o p v w.clock w.caches in
    act_on o p v seen.0 (record w { clock = w.clock + recheck_delay_seconds; caches = seen.1 })

unfoldable pub enforce_target :
    Outside → StreamPolicy → Violation → Option Session → World → World × Bool
enforce_target o p v none w = (w, true)
enforce_target o p v (some t) w =
    if is_strict_expired_subscription_policy p
    then (kill_immediately o p v t w, true)
    else (let warned = warn_once o p v t w in
        if warned.1 then (second_look o p v warned.0, true) else warned)

unfoldable pub enforce : Outside → StreamPolicy → Violation → World → World × Bool
enforce o p v w =
    if o.has_server w.clock v.server_id
    then enforce_target o p v (pick_kill_target v.sessions v.selector) w
    else (w, true)

-- An exception ends the loop.
unfoldable pub enforce_all : Outside → List (StreamPolicy × Violation) → World → World × Bool
enforce_all o [] w = (w, true)
enforce_all o ((p, v) ∷ violations) w =
    let here = enforce o p v w in
    let rest = enforce_all o violations here.0 in if here.1 then rest else here

unfoldable pub evaluate_all :
    Context
    → List StreamPolicy
    → List Session
    → List Session
    → Caches
    → List (StreamPolicy × Violation) × Caches
evaluate_all env [] live fresh c = ([], c)
evaluate_all env (p ∷ policies) live fresh c =
    let here =
      evaluate_policy env p (if is_strict_expired_subscription_policy p then fresh else live) c in
    let rest = evaluate_all env policies live fresh here.1 in
    (map (λ (v : Violation). (p, v)) here.0 ++ rest.0, rest.1)

abbrev pub is_empty {ℓ} : {A : Type ℓ} → List A → Bool
is_empty [] = true
is_empty (x ∷ xs) = false

unfoldable pub run : Outside → World → World × Bool
run o w =
    let begun = record w { boost = refresh_boost_state w.clock w.boost } in
    let policies = load_enabled_policies o.policies in
    let live = live_at o live_stable_seconds w.clock in
    let fresh = live_at o 0 w.clock in
    if is_empty policies || is_empty live && is_empty fresh
    then (begun, true)
    else (let found = evaluate_all (context_at o w.clock) policies live fresh w.caches in
        enforce_all o found.0 (record begun { caches = found.1 }))
