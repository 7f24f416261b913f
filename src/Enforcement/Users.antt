-- ===== src/Enforcement/Users.antt =====
-- app/tasks/stream_enforcer.py, `_evaluate_policy`: the rules that count the sessions of a user or an
-- address. They read and change the caches, which are passed on from group to group.
use vodum.Common.{
  any, ℕ, ◌↔◌, ◌≡◌, Bool, true, false, not, ◌&&◌, ◌||◌, Option, none, some, List, [], ◌∷◌, ◌++◌,
  String, str_eq, eq_iff, ltb, leb, ◌==◌, length, where_rows, if◌then◌else◌, Key, arith,
}
use vodum.Policies.{
  Session, Policy, ScopeType, Violation, UserKey, normalize_user_key, user_keys, same_number,
  same_number_iff, is_local_ip, has_text, pick_kill_target, deduplicate_user_stream_sessions,
  should_defer_stream_violation, deduplicate_household_sessions, should_grace_coherent_ip_switch,
}
use vodum.Enforcement.Rules.{StreamPolicy, Caches, Context, get_or, selector_of, is_truthy}

-- `overrides.get(int(vodum_user_id))`
abbrev pub override_of : List (ℕ × ℕ) → ℕ → Option ℕ
override_of [] u = none
override_of ((v, n) ∷ overrides) u = if v == u then some n else override_of overrides u

unfoldable pub has_vip_override : Option ℕ → List (ℕ × ℕ) → Bool
has_vip_override none overrides = false
has_vip_override (some u) overrides = ltb 0 (get_or (override_of overrides u) 0)

-- A user's override takes the place of the policy's limit.
unfoldable pub effective_max : Option ℕ → List (ℕ × ℕ) → ℕ → ℕ
effective_max none overrides max = max
effective_max (some u) overrides max = get_or (override_of overrides u) max

abbrev pub is_global_policy : Policy → Bool
is_global_policy p = elim p.scope_type [
  | ScopeType.global ↦ not (is_truthy p.server_id)
  | _ ↦ false
]

abbrev pub per_server_counting : Policy → Bool
per_server_counting p =
    is_truthy p.server_id || elim p.scope_type [ ScopeType.server ↦ true | _ ↦ false ]

-- The key of the streams that are counted together.
unfoldable pub stream_key : Policy → Session → UserKey
stream_key p s = record {
  vodum_user_id = s.vodum_user_id;
  external_user_id = s.external_user_id;
  server_id = if is_global_policy p || not (per_server_counting p) then none else some s.server_id;
}

-- With `allow_local_ip` the sessions of the local network are left out.
unfoldable pub without_local : Context → StreamPolicy → List Session → List Session
without_local env p sessions =
    if get_or p.rule.allow_local_ip false
    then where_rows (λ (s : Session). not (is_local_ip env.net s.ip)) sessions
    else sessions

-- The violation of a target, and of the sessions that it was chosen from.
abbrev pub user_violation :
    String → String → UserKey → List Session → Option Session → List Violation
user_violation kind selector user sessions none = []
user_violation kind selector user sessions (some t) =
    record {
      kind = kind;
      user_id = user.vodum_user_id;
      actor = user.external_user_id;
      server_id = t.server_id;
      provider = t.provider;
      sessions = sessions;
      selector = selector;
    }
    ∷ []

-- The target is the only session of its violation, and its user the violation's.
abbrev pub stream_violation : String → Option Session → List Violation
stream_violation selector none = []
stream_violation selector (some t) =
    user_violation "ip_streams" selector (normalize_user_key t) (t ∷ []) (some t)

unfoldable pub count_user_streams :
    Context → StreamPolicy → UserKey → List Session → Caches → List Violation × Caches
unfolding deduplicate_user_stream_sessions should_defer_stream_violation effective_max without_local
count_user_streams env p user sessions c =
    let limit = effective_max user.vodum_user_id env.overrides (get_or p.rule.max 1) in
    let counted =
      deduplicate_user_stream_sessions p.id user (without_local env p sessions) env.now
        c.overlaps in
    let deferred =
      should_defer_stream_violation
        (record {
          policy_id = p.id;
          user_key = user;
          sessions = counted.0;
          limit = limit;
          current_count = length counted.0;
        })
        env.now c.switches in
    (
      if leb (length counted.0) limit || deferred.0
          then []
          else stream_violation (selector_of p) (pick_kill_target counted.0 (selector_of p)),
      record c { overlaps = counted.1; switches = deferred.1 },
    )

-- The addresses without repetition: a Python set.
abbrev pub ip_of : Session → String
ip_of s = if has_text s.ip then s.ip else "unknown"

abbrev pub counts_ip : Context → StreamPolicy → String → Bool
counts_ip env p ip =
    not (str_eq ip "unknown" && get_or p.rule.ignore_unknown true)
    && not (get_or p.rule.allow_local_ip false && is_local_ip env.net ip)

unfoldable pub counted_ips : Context → StreamPolicy → List Session → List String
counted_ips env p [] = []
counted_ips env p (s ∷ ss) =
    let rest = counted_ips env p ss in
    if counts_ip env p (ip_of s) && not (any (λ i. str_eq i (ip_of s)) rest)
    then ip_of s ∷ rest
    else rest

-- The sessions to choose the target from: those off the local network, if there is one.
unfoldable pub ip_candidates : Context → StreamPolicy → List Session → List Session
unfolding without_local
ip_candidates env p sessions = elim (without_local env p sessions) [
  | [] ↦ sessions
  | s ∷ ss ↦ s ∷ ss
]

unfoldable pub count_user_ips :
    Context → StreamPolicy → UserKey → List Session → Caches → List Violation × Caches
unfolding has_vip_override deduplicate_household_sessions should_grace_coherent_ip_switch
    counted_ips ip_candidates
count_user_ips env p user sessions c =
    if has_vip_override user.vodum_user_id env.overrides
    then ([], c)
    else (let deduped = deduplicate_household_sessions env.net env.now sessions c.recent in
        let ips = length (counted_ips env p deduped.0) in
        let graced =
          should_grace_coherent_ip_switch p.id user deduped.0 ips (get_or p.rule.max 1) env.now
            c.graced in
        if leb ips (get_or p.rule.max 1) then ([], record c { recent = deduped.1 }) else (
          if graced.0
              then []
              else user_violation "user_ips" (selector_of p) user deduped.0
                  (pick_kill_target (ip_candidates env p deduped.0) (selector_of p)),
          record c { recent = deduped.1; graced = graced.1 },
        ))

-- `f"{server_id}|{ip}"`, or the address alone.
pub record IpKey : Type 0 where
  pub server_id : Option ℕ
  pub ip : String

abbrev pub same_ip_key : IpKey → IpKey → Bool
same_ip_key a b = same_number a.server_id b.server_id && str_eq a.ip b.ip

pub same_ip_key_iff : (a b : IpKey) → (same_ip_key a b ≡ true) ↔ (a ≡ b)
same_ip_key_iff a b = ground (arith, same_number_iff a.server_id b.server_id, eq_iff a.ip b.ip)

instance abbrev pub ip_keys : Key IpKey
ip_keys = record { same = same_ip_key; same_iff = same_ip_key_iff }

abbrev pub ip_key : StreamPolicy → Session → IpKey
ip_key p s = record {
  server_id = if get_or p.rule.per_server true then some s.server_id else none;
  ip = ip_of s;
}

abbrev pub is_limited : Context → StreamPolicy → Session → Bool
unfolding has_vip_override
is_limited env p s =
    not (has_vip_override s.vodum_user_id env.overrides) && counts_ip env p (ip_of s)

abbrev pub ip_violation : String → List Session → Option Session → List Violation
ip_violation selector sessions none = []
ip_violation selector sessions (some t) =
    user_violation "ip_streams" selector (normalize_user_key t) sessions (some t)

unfoldable pub count_ip_streams :
    Context → StreamPolicy → IpKey → List Session → Caches → List Violation × Caches
unfolding deduplicate_household_sessions
count_ip_streams env p key sessions c =
    let counted = deduplicate_household_sessions env.net env.now sessions c.recent in
    (
      if leb (length counted.0) (get_or p.rule.max 2)
          then []
          else ip_violation (selector_of p) counted.0 (pick_kill_target counted.0 (selector_of p)),
      record c { recent = counted.1 },
    )

-- `for key, sessions in groups.items(): …`
unfoldable pub each_group {ℓ} :
    {K : Type ℓ}
    → (K → List Session → Caches → List Violation × Caches)
    → List (K × List Session)
    → Caches
    → List Violation × Caches
each_group step [] c = ([], c)
each_group step ((k, ss) ∷ groups) c =
    let here = step k ss c in let rest = each_group step groups here.1 in (here.0 ++ rest.0, rest.1)
