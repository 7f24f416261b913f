-- ===== src/Examples/Enforcing.antt =====
-- The theorems on the stream enforcer at concrete inputs.
use vodum.Common.{
  ℕ, ◌≡◌, refl, true, false, not, ◌||◌, none, some, List, [], ◌∷◌, str_eq, ltb, where_rows, All,
  arith,
}
use vodum.Policies.{
  household_match_score, extract_machine_identifier, same_media_family, seconds_between_sessions,
  same_subnet, Session, Policy, ScopeType, Addresses, Remembered, policy_applies,
  is_coherent_media_transition, deduplicate_household_sessions, should_grace_coherent_ip_switch,
  normalize_user_key, household_user, is_probable_same_household,
}
use vodum.Enforcement.{
  StreamPolicy, RuleType, Rule, Caches, Context, evaluate_policy, evaluate_scoped, StateKey,
  upsert_state, state_key, already_warned_recently,
}
use vodum.Enforcement.Graces.{grace_never_ends}
use vodum.Enforcement.Scoping.{evaluate_policy_lem}
use vodum.Enforcement.Aim.{IsAimed}
use vodum.Enforcement.Targeting.{evaluate_policy-IsAimed}
use vodum.Enforcement.Memory.{IsUnique, memory, note, is_warned_since, upsert_state_refines}
use vodum.Enforcement.Households.{IsBounded, AreApart, StartsWith, deduplicate_household_lem}
use vodum.Enforcement.Ended.{ended_session_stays, ne_of_test}
use vodum.Examples.Sessions.{on_television, on_telephone, on_laptop, on_tablet}

abbrev pub home_network : Addresses
home_network = record { version = λ ip. none; is_private = λ ip. str_eq ip "192.168.1.9" }

abbrev pub at : ℕ → Context
at n = record { net = home_network; overrides = []; now = n }

abbrev everywhere : Policy
everywhere = record {
  provider = none;
  server_id = none;
  scope_type = ScopeType.global;
  scope_id = none;
}

abbrev plain_rule : Rule
plain_rule = record {
  max = some 1;
  max_kbps = none;
  ignore_unknown = none;
  per_server = none;
  allow_local_ip = none;
  allowed = [];
  selector = none;
  system_tag = "";
}

abbrev pub one_stream : StreamPolicy
one_stream = record {
  id = 3;
  scope = everywhere;
  is_enabled = true;
  priority = 1;
  rule_type = RuleType.max_streams_per_user;
  rule = plain_rule;
}

abbrev on_server_9 : StreamPolicy
on_server_9 = record one_stream { scope = record everywhere { server_id = some 9 } }

abbrev one_address : StreamPolicy
one_address = record one_stream {
  rule_type = RuleType.max_ips_per_user;
  rule = record plain_rule { allow_local_ip = some true };
}

abbrev pub no_caches : Caches
no_caches = record { switches = []; overlaps = []; recent = []; graced = [] }

grace_never_ends_example :
    (should_grace_coherent_ip_switch 3
      (normalize_user_key on_television)
      (on_television ∷ on_telephone ∷ [])
      2
      1
      9000
      []).0
    ≡ not (
        ltb 2 2
        || ltb 2 2
        || not (is_coherent_media_transition (on_television ∷ on_telephone ∷ [])))
grace_never_ends_example =
    grace_never_ends 3 (normalize_user_key on_television) (on_television ∷ on_telephone ∷ []) 2 1
      9000 []

evaluate_policy_lem_example :
    evaluate_policy (at 3100) on_server_9 (on_television ∷ on_tablet ∷ []) no_caches
    ≡ evaluate_scoped
        (at 3100)
        on_server_9
        (where_rows (policy_applies on_server_9.scope) (on_television ∷ on_tablet ∷ []))
        no_caches
evaluate_policy_lem_example =
    evaluate_policy_lem (at 3100) on_server_9 (on_television ∷ on_tablet ∷ []) no_caches

evaluate_policy-IsAimed_example :
    All IsAimed
      (evaluate_policy
        (at 3100)
        one_stream
        (on_television ∷ on_laptop ∷ on_tablet ∷ [])
        no_caches).0
evaluate_policy-IsAimed_example =
    evaluate_policy-IsAimed (at 3100) one_stream (on_television ∷ on_laptop ∷ on_tablet ∷ [])
      no_caches refl

upsert_state_refines_example :
    let k = state_key 3 7 (some 5) "" in
    let after = upsert_state 1000 3 7 (some 5) "" true false [] in
    IsUnique after
    × ((j : StateKey) → memory after j ≡ note 1000 k true false (memory []) j)
    × ((later minutes : ℕ)
        → already_warned_recently later 3 7 (some 5) "" minutes after
          ≡ is_warned_since later minutes (memory after k))
upsert_state_refines_example =
    upsert_state_refines 1000 3 7 (some 5) "" true false [] (λ k. omega arith)

abbrev three_streams : List Session
three_streams = on_television ∷ on_laptop ∷ on_tablet ∷ []

deduplicate_household_lem_example :
    let kept = deduplicate_household_sessions home_network 3100 three_streams [] in
    AreApart home_network kept.0 × IsBounded kept.1 × StartsWith on_television kept.0
deduplicate_household_lem_example =
    deduplicate_household_lem home_network 3100 on_television (on_laptop ∷ on_tablet ∷ []) [] tt
      (ne_of_test "a" "" refl)

-- The laptop has stopped before the tablet starts.
ended_session_stays_example :
    let ended : Remembered = record { session = on_laptop; cache_ts = 2900 } in
    let first =
      deduplicate_household_sessions home_network 3100
        (on_tablet ∷ [])
        ((household_user on_tablet, ended ∷ []) ∷ []) in
    (first.0 ≡ on_tablet ∷ on_laptop ∷ [])
    × ((deduplicate_household_sessions home_network 3300 (on_tablet ∷ []) first.1).0
        ≡ on_tablet ∷ on_laptop ∷ [])
unfolding household_user is_probable_same_household household_match_score extract_machine_identifier
    same_media_family seconds_between_sessions same_subnet
ended_session_stays_example =
    ended_session_stays home_network on_tablet (record { session = on_laptop; cache_ts = 2900 })
      (ne_of_test "d" "" refl) (ne_of_test "c" "" refl) (ne_of_test "d" "c" refl) refl refl 3100
      3300 (omega arith) (omega arith)
