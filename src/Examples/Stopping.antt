-- ===== src/Examples/Stopping.antt =====
-- The theorems on warnings and stops at concrete inputs, and a whole run of the enforcer.
use vodum.Common.{
  ℕ, ◌≡◌, ◌⊎◌, refl, Bool, true, false, none, some, List, [], ◌∷◌, arith, group_by, map, count_rows,
}
use vodum.State.{Provider}
use vodum.Policies.{
  deduplicate_user_stream_sessions, has_endpoint, session_endpoint_identity, count_endpoints,
  count_endpoint, should_defer_stream_violation, probable_switch_identity, defer_identity,
  playback_identity, has_two_keys, has_other_key, is_playing, select_rechecked_violation,
  recheck_elsewhere, newest, extract_machine_identifier, Session, Violation, policy_applies,
  pick_kill_target,
}
use vodum.Enforcement.{
  LiveRow, run, set_interval, load_enabled_policies, live_at, load_live_sessions, is_live,
  context_at, load_user_stream_overrides, evaluate_all, is_out_of_scope, lacks_provider,
  lacks_server, lacks_user, apply_rule, stream_key, each_group, count_user_streams, without_local,
  effective_max, enforce_target, actor_key, record_warning, log_enforcement, second_look,
  recheck_violation, act_on, stop_confirmed, annoy_target, pre_kill, kill_target, finish_kill,
  Enforced, Action, settle_warning, evaluate_policy, evaluate_scoped, upsert_state, state_key,
  already_warned_recently, Outside, World, Outcome, Call, enforce, enforce_all, warn_target,
  warn_once, refresh_boost_state, get_interval, jellyfin_session_id_from_target,
  is_strict_expired_subscription_policy,
}
use vodum.Enforcement.Calls.{stops}
use vodum.Enforcement.Stops.{IsConfirmedStop, enforce_confirmed}
use vodum.Enforcement.Warnings.{warned_once}
use vodum.Examples.Sessions.{on_television, on_laptop}
use vodum.Examples.Enforcing.{home_network, one_stream, no_caches}

-- A film on a Jellyfin server, and the violation of a limit there.
abbrev on_jellyfin : Session
on_jellyfin = record on_television { provider = Provider.jellyfin; server_id = 4 }

abbrev too_many : Violation
too_many = record {
  kind = "ip_streams";
  user_id = some 5;
  actor = "x5";
  server_id = 4;
  provider = Provider.jellyfin;
  sessions = on_jellyfin ∷ [];
  selector = "kill_newest";
}

-- Two streams that are live at any time, and servers that answer as told.
abbrev living : ℕ → Session → LiveRow
living now s = record {
  session = record s { last_seen_at = some now };
  is_down = false;
  cooldown_until = none;
  missing_count = 0;
}

abbrev outside : Outcome → Outside
outside x = record {
  net = home_network;
  policies = one_stream ∷ [];
  users = [];
  rows = λ now.
      living now on_jellyfin
      ∷ living now (record on_laptop { provider = Provider.jellyfin; server_id = 4 })
      ∷ [];
  has_server = λ now n. true;
  send_session_message = λ now n k. x;
  terminate_session = λ now n k. Outcome.done;
}

abbrev start : World
start = record {
  clock = 3100;
  caches = no_caches;
  rows = [];
  log = [];
  boost = record { boost_until = none; interval_seconds = some 15; is_interval_mode = true };
  calls = [];
}

enforce_confirmed_example :
    (stops (enforce (outside Outcome.done) one_stream too_many start).0 ≡ stops start)
    ⊎ IsConfirmedStop
        (outside Outcome.done)
        one_stream
        too_many
        start
        (enforce (outside Outcome.done) one_stream too_many start).0
unfolding is_strict_expired_subscription_policy
enforce_confirmed_example = enforce_confirmed (outside Outcome.done) one_stream too_many start refl

warned_once_example :
    let after =
      record (warn_target (outside Outcome.done) one_stream too_many on_jellyfin start).0 {
        clock = 3400;
      } in
    warn_once (outside Outcome.done) one_stream too_many on_laptop after ≡ (after, true)
unfolding warn_target settle_warning
warned_once_example =
    warned_once (outside Outcome.done) one_stream too_many on_jellyfin on_laptop start 3400
      (λ k. omega arith) refl (omega arith)

-- A whole run: one warning, six more messages in the minute before the stop, and one stop.
abbrev is_message : Call → Bool
is_message (Call.message n k) = true
is_message (Call.stop n k) = false
is_message (Call.notification p t) = false

abbrev summary : World → List Action × ℕ × ℕ × ℕ
summary w =
    (map (λ (r : Enforced). r.action) w.log, count_rows is_message w.calls, stops w, w.clock)

whole_run :
    summary (run (outside Outcome.done) start).0 ≡ (Action.warn ∷ Action.kill ∷ [], 7, 1, 3205)
unfolding run refresh_boost_state get_interval set_interval load_enabled_policies live_at
    load_live_sessions is_live context_at load_user_stream_overrides evaluate_all
    is_strict_expired_subscription_policy evaluate_policy is_out_of_scope lacks_provider
    lacks_server lacks_user policy_applies evaluate_scoped apply_rule group_by stream_key each_group
    count_user_streams without_local effective_max deduplicate_user_stream_sessions has_endpoint
    session_endpoint_identity extract_machine_identifier count_endpoints count_endpoint
    should_defer_stream_violation probable_switch_identity defer_identity playback_identity
    has_two_keys has_other_key is_playing pick_kill_target newest enforce_all enforce enforce_target
    warn_once warn_target already_warned_recently state_key actor_key
    jellyfin_session_id_from_target settle_warning record_warning log_enforcement upsert_state
    second_look recheck_violation select_rechecked_violation recheck_elsewhere act_on stop_confirmed
    annoy_target pre_kill kill_target finish_kill
whole_run = refl
