-- ===== src/Enforcement/Evaluate.antt =====
-- app/tasks/stream_enforcer.py: `_evaluate_policy` as a whole, and `_recheck_violation`.
use vodum.Common.{
  Bool, false, ◌&&◌, Option, List, [], ◌∷◌, str_eq, leb, where_rows, if◌then◌else◌, group_by,
}
use vodum.Policies.{
  Session, policy_applies, Violation, normalize_user_key, user_keys, select_rechecked_violation,
}
use vodum.Enforcement.Rules.{
  StreamPolicy, RuleType, Caches, Context, get_or, is_out_of_scope, transcode_violations,
  height_violations, bitrate_violations, device_violations,
}
use vodum.Enforcement.Users.{
  stream_key, count_user_streams, count_user_ips, count_ip_streams, ip_key, ip_keys, is_limited,
  each_group,
}

-- What `_evaluate_policy` does with the sessions in scope.
unfoldable pub apply_rule :
    RuleType → Context → StreamPolicy → List Session → Caches → List Violation × Caches
unfolding each_group count_user_streams count_user_ips count_ip_streams transcode_violations
    height_violations bitrate_violations device_violations stream_key group_by
apply_rule RuleType.max_streams_per_user env p scoped c =
    each_group (count_user_streams env p) (group_by (stream_key p.scope) scoped) c
apply_rule RuleType.max_ips_per_user env p scoped c =
    each_group (count_user_ips env p) (group_by normalize_user_key scoped) c
apply_rule RuleType.max_streams_per_ip env p scoped c =
    each_group (count_ip_streams env p) (group_by (ip_key p) (where_rows (is_limited env p) scoped))
      c
apply_rule RuleType.max_transcodes_global env p scoped c = (transcode_violations p scoped, c)
apply_rule RuleType.ban_4k_transcode env p scoped c = (height_violations p scoped, c)
apply_rule RuleType.max_bitrate_kbps env p scoped c = (bitrate_violations p scoped, c)
apply_rule RuleType.device_allowlist env p scoped c = (device_violations p scoped, c)
apply_rule RuleType.other_rule env p scoped c = ([], c)

-- Without a session in scope it returns early.
unfoldable pub evaluate_scoped :
    Context → StreamPolicy → List Session → Caches → List Violation × Caches
unfolding apply_rule
evaluate_scoped env p [] c = ([], c)
evaluate_scoped env p (s ∷ scoped) c = apply_rule p.rule_type env p (s ∷ scoped) c

unfoldable pub evaluate_policy :
    Context → StreamPolicy → List Session → Caches → List Violation × Caches
unfolding evaluate_scoped is_out_of_scope policy_applies
evaluate_policy env p sessions c =
    if is_out_of_scope p.scope sessions
    then ([], c)
    else evaluate_scoped env p (where_rows (policy_applies p.scope) sessions) c

-- `is_strict_expired_subscription_policy`, of app/core/stream_policy_utils.py
unfoldable pub is_strict_expired_subscription_policy : StreamPolicy → Bool
is_strict_expired_subscription_policy p = elim p.rule_type [
  | RuleType.max_streams_per_user ↦
      str_eq p.rule.system_tag "expired_subscription" && leb (get_or p.rule.max 1) 0
  | _ ↦ false
]

-- The sessions are those loaded after the delay.
unfoldable pub recheck_violation :
    Context → StreamPolicy → Violation → List Session → Caches → Option Violation × Caches
unfolding evaluate_policy select_rechecked_violation
recheck_violation env p v sessions c =
    let again = evaluate_policy env p sessions c in (select_rechecked_violation v again.0, again.1)
