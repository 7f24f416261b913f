-- ===== src/Enforcement/Targeting.antt =====
-- app/tasks/stream_enforcer.py, `_evaluate_policy`: for each rule, the server that its violations name.
use vodum.Common.{
  ◌≡◌, refl, Bool, true, false, ◌||◌, Option, none, some, List, [], ◌∷◌, String, leb, All,
  All-append, where_rows, length, if◌then◌else◌, arith, Bool-cases, Option-cases, inl, inr,
  group_by, sym, subst,
}
use vodum.Policies.{
  Session, Violation, UserKey, policy_applies, pick_kill_target, number_keys, user_keys,
  normalize_user_key, deduplicate_household_sessions, deduplicate_user_stream_sessions,
  should_defer_stream_violation,
}
use vodum.Enforcement.Rules.{
  StreamPolicy, RuleType, Caches, Context, get_or, selector_of, transcode_violations,
  height_violations, bitrate_violations, is_4k_transcode, is_above,
}
use vodum.Enforcement.Users.{
  user_violation, stream_violation, ip_violation, without_local, ip_candidates, count_user_streams,
  count_user_ips, count_ip_streams, each_group, stream_key, ip_key, ip_keys, is_limited, IpKey,
  has_vip_override, effective_max, counted_ips,
}
use vodum.Enforcement.Evaluate.{apply_rule, evaluate_scoped, evaluate_policy}
use vodum.Enforcement.Scoping.{evaluate_policy_lem}
use vodum.Enforcement.Servers.{server_rule-IsAimed, device_violations-IsAimed}
use vodum.Enforcement.Aim.{IsAimed, pick_kill_target-All}

-- A violation that holds the sessions its target was picked from.
user_violation-IsAimed :
    (kind selector : String) (user : UserKey) (sessions : List Session)
    → All IsAimed (user_violation kind selector user sessions (pick_kill_target sessions selector))
user_violation-IsAimed kind selector user sessions =
    elim (Option-cases (pick_kill_target sessions selector)) [
      | inl e ↦ rw e tt
      | inr (t, e) ↦ rw e (rw e refl, tt)
    ]

ip_violation-IsAimed :
    (selector : String) (sessions : List Session)
    → All IsAimed (ip_violation selector sessions (pick_kill_target sessions selector))
ip_violation-IsAimed selector sessions = elim (Option-cases (pick_kill_target sessions selector)) [
  | inl e ↦ rw e tt
  | inr (t, e) ↦ rw e (rw e refl, tt)
]

stream_violation-IsAimed :
    (selector : String) (target : Option Session) → All IsAimed (stream_violation selector target)
stream_violation-IsAimed selector none = tt
stream_violation-IsAimed selector (some t) =
    (pick_kill_target-All (λ s. s.server_id ≡ t.server_id) (t ∷ []) selector (refl, tt), tt)

each_group-All {ℓ} :
    {K : Type ℓ} (P : Violation → Type 0)
    (step : K → List Session → Caches → List Violation × Caches)
    → ((k : K) (ss : List Session) (c : Caches) → All P (step k ss c).0)
    → (groups : List (K × List Session)) (c : Caches) → All P (each_group step groups c).0
unfolding each_group
each_group-All P step h [] c = tt
each_group-All P step h ((k, ss) ∷ groups) c =
    All-append P (step k ss c).0 (each_group step groups (step k ss c).1).0 (h k ss c)
      (each_group-All P step h groups (step k ss c).1)

none_or : (b : Bool) (vs : List Violation) → All IsAimed vs → All IsAimed (if b then [] else vs)
none_or true vs h = tt
none_or false vs h = h

module _ (env : Context) (p : StreamPolicy) where
  count_user_streams-IsAimed :
      (user : UserKey) (ss : List Session) (c : Caches)
      → All IsAimed (count_user_streams env p user ss c).0
  unfolding count_user_streams
  count_user_streams-IsAimed user ss c =
      let counted =
        deduplicate_user_stream_sessions p.id user (without_local env p ss) env.now c.overlaps in
      let limit = effective_max user.vodum_user_id env.overrides (get_or p.rule.max 1) in
      let deferred =
        should_defer_stream_violation
          (record {
            policy_id = p.id;
            user_key = user;
            sessions = counted.0;
            limit = limit;
            current_count = length counted.0;
          })
          env.now c.switches in
      let target = pick_kill_target counted.0 (selector_of p) in
      none_or (leb (length counted.0) limit || deferred.0) (stream_violation (selector_of p) target)
        (stream_violation-IsAimed (selector_of p) target)

  count_ip_streams-IsAimed :
      (key : IpKey) (ss : List Session) (c : Caches)
      → All IsAimed (count_ip_streams env p key ss c).0
  unfolding count_ip_streams
  count_ip_streams-IsAimed key ss c =
      let counted = deduplicate_household_sessions env.net env.now ss c.recent in
      let target = pick_kill_target counted.0 (selector_of p) in
      none_or (leb (length counted.0) (get_or p.rule.max 2))
        (ip_violation (selector_of p) counted.0 target)
        (ip_violation-IsAimed (selector_of p) counted.0)

  ip_candidates_all :
      (ss : List Session) → get_or p.rule.allow_local_ip false ≡ false → ip_candidates env p ss ≡ ss
  unfolding ip_candidates without_local
  ip_candidates_all [] h = ground arith
  ip_candidates_all (s ∷ ss) h = ground arith

  count_user_ips-IsAimed :
      get_or p.rule.allow_local_ip false ≡ false
      → (user : UserKey) (ss : List Session) (c : Caches)
      → All IsAimed (count_user_ips env p user ss c).0
  unfolding count_user_ips
  count_user_ips-IsAimed off user ss c =
      let deduped = deduplicate_household_sessions env.net env.now ss c.recent in
      let aimed : All IsAimed (
          user_violation "user_ips" (selector_of p) user deduped.0
            (pick_kill_target (ip_candidates env p deduped.0) (selector_of p))) =
        subst
          (λ (xs : List Session). All IsAimed (
            user_violation "user_ips" (selector_of p) user deduped.0
              (pick_kill_target xs (selector_of p))))
          (sym (ip_candidates_all deduped.0 off))
          (user_violation-IsAimed "user_ips" (selector_of p) user deduped.0) in
      elim (Bool-cases (has_vip_override user.vodum_user_id env.overrides)) [
        | inl vip ↦ rw vip tt
        | inr not_vip ↦
            elim (Bool-cases (leb (length (counted_ips env p deduped.0)) (get_or p.rule.max 1))) [
              | inl few ↦ rw (not_vip, few) tt
              | inr many ↦ rw (not_vip, many) (none_or _ _ aimed)
            ]
      ]

-- The rule whose target is picked from other sessions than the violation holds.
abbrev pub may_misaim : RuleType → Bool → Bool
may_misaim RuleType.max_ips_per_user allow_local_ip = allow_local_ip
may_misaim _ allow_local_ip = false

apply_rule-IsAimed :
    (t : RuleType) (env : Context) (p : StreamPolicy) (ss : List Session) (c : Caches)
    → may_misaim t (get_or p.rule.allow_local_ip false) ≡ false
    → All IsAimed (apply_rule t env p ss c).0
unfolding apply_rule transcode_violations height_violations bitrate_violations
apply_rule-IsAimed RuleType.max_streams_per_user env p ss c h =
    each_group-All IsAimed (count_user_streams env p) (count_user_streams-IsAimed env p)
      (group_by (stream_key p.scope) ss) c
apply_rule-IsAimed RuleType.max_ips_per_user env p ss c h =
    each_group-All IsAimed (count_user_ips env p) (count_user_ips-IsAimed env p h)
      (group_by normalize_user_key ss) c
apply_rule-IsAimed RuleType.max_streams_per_ip env p ss c h =
    each_group-All IsAimed (count_ip_streams env p) (count_ip_streams-IsAimed env p)
      (group_by (ip_key p) (where_rows (is_limited env p) ss)) c
apply_rule-IsAimed RuleType.max_transcodes_global env p ss c h =
    server_rule-IsAimed "server_transcodes" "server" (selector_of p) (get_or p.rule.max 1)
      (where_rows (λ (s : Session). s.is_transcode) ss)
apply_rule-IsAimed RuleType.ban_4k_transcode env p ss c h =
    server_rule-IsAimed "4k_transcode" "4k" (selector_of p) 0 (where_rows is_4k_transcode ss)
apply_rule-IsAimed RuleType.max_bitrate_kbps env p ss c h =
    server_rule-IsAimed "bitrate" "bitrate" (selector_of p) 0
      (where_rows (is_above (get_or p.rule.max_kbps 0)) ss)
apply_rule-IsAimed RuleType.device_allowlist env p ss c h =
    device_violations-IsAimed p ss p.rule.allowed refl
apply_rule-IsAimed RuleType.other_rule env p ss c h = tt

evaluate_scoped-IsAimed :
    (env : Context) (p : StreamPolicy) (ss : List Session) (c : Caches)
    → may_misaim p.rule_type (get_or p.rule.allow_local_ip false) ≡ false
    → All IsAimed (evaluate_scoped env p ss c).0
unfolding evaluate_scoped
evaluate_scoped-IsAimed env p [] c h = tt
evaluate_scoped-IsAimed env p (s ∷ ss) c h = apply_rule-IsAimed p.rule_type env p (s ∷ ss) c h

-- But for addresses per user with the local network allowed, every rule gives violations whose
-- server is that of the session which the run will choose from them.
pub evaluate_policy-IsAimed :
    (env : Context) (p : StreamPolicy) (sessions : List Session) (c : Caches)
    → may_misaim p.rule_type (get_or p.rule.allow_local_ip false) ≡ false
    → All IsAimed (evaluate_policy env p sessions c).0
evaluate_policy-IsAimed env p sessions c h =
    rw (evaluate_policy_lem env p sessions c)
      (evaluate_scoped-IsAimed env p (where_rows (policy_applies p.scope) sessions) c h)
