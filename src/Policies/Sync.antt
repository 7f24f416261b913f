-- ===== src/Policies/Sync.antt =====
-- app/core/stream_sync_dedupe.py: the sessions of one user that seem to be one device's count once.
-- STREAM_SYNC_GRACE_CACHE is a list of its entries, and a call's clock one number of seconds.
use vodum.Common.{
  ℕ, ◌+◌, ◌-◌, Bool, false, ◌||◌, not, Option, none, some, List, [], ◌∷◌, ◌++◌, String, ltb, leb,
  length, find_row, where_rows, update_rows, delete_rows, if◌then◌else◌, group_by, sort_by,
}
use vodum.Policies.Scope.{Session, has_text}
use vodum.Policies.Endpoint.{
  session_endpoint_identity, session_time_delta_seconds, session_sort_key,
}
use vodum.Policies.Keys.{UserKey, GraceKey, same_grace, grace_key, text_keys}

abbrev pub stream_sync_grace_runs : ℕ
stream_sync_grace_runs = 2

abbrev pub stream_sync_transition_seconds : ℕ
stream_sync_transition_seconds = 120

-- `max(STREAM_SYNC_TRANSITION_SECONDS * 3, HOUSEHOLD_MEMORY_SECONDS)`
abbrev pub sync_ttl_seconds : ℕ
sync_ttl_seconds = 360

pub record Overlap : Type 0 where
  pub key : GraceKey
  pub runs : ℕ
  pub ts : ℕ

-- `sorted(sessions, key=session_sort_key, reverse=True)`: equal keys keep their order.
abbrev pub latest_first : List Session → List Session
latest_first sessions = sort_by (λ s r. leb (session_sort_key r) (session_sort_key s)) sessions

abbrev pub any_strong : List Session → Bool
unfolding session_endpoint_identity
any_strong [] = false
any_strong (s ∷ ss) = (session_endpoint_identity s).1 || any_strong ss

-- `max(session_time_delta_seconds(representative, session) for …)`
unfoldable pub max_delta : Session → List Session → ℕ
unfolding session_time_delta_seconds
max_delta r [] = 0
max_delta r (s ∷ ss) =
    let rest = max_delta r ss in
    let here = session_time_delta_seconds r s in if ltb rest here then here else rest

unfoldable pub put_overlap : ℕ → GraceKey → Option Overlap → List Overlap → ℕ × List Overlap
put_overlap now key none cache = (1, cache ++ record { key = key; runs = 1; ts = now } ∷ [])
put_overlap now key (some o) cache = (
  o.runs + 1,
  update_rows (λ p. same_grace key p.key) (λ p. record p { runs = o.runs + 1; ts = now }) cache,
)

-- One device's sessions, the latest first.
unfoldable pub count_endpoint :
    ℕ → UserKey → ℕ → String → Bool → List Session → List Overlap → List Session × List Overlap
unfolding max_delta put_overlap
count_endpoint policy_id user_key now endpoint strong [] cache = ([], cache)
count_endpoint policy_id user_key now endpoint strong (s ∷ []) cache = (s ∷ [], cache)
count_endpoint policy_id user_key now endpoint strong (s ∷ r ∷ ss) cache =
    if strong
    then (s ∷ [], cache)
    else if ltb stream_sync_transition_seconds (max_delta s (r ∷ ss))
    then (s ∷ r ∷ ss, cache)
    else (let key = grace_key policy_id user_key endpoint (s ∷ r ∷ ss) in
        let put = put_overlap now key (find_row (λ o. same_grace key o.key) cache) cache in
        (if leb put.0 stream_sync_grace_runs then s ∷ [] else s ∷ r ∷ ss, put.1))

unfoldable pub count_endpoints :
    ℕ → UserKey → ℕ → List (String × List Session) → List Overlap → List Session × List Overlap
unfolding count_endpoint
count_endpoints policy_id user_key now [] cache = ([], cache)
count_endpoints policy_id user_key now ((endpoint, ss) ∷ groups) cache =
    let here =
      count_endpoint policy_id user_key now endpoint (any_strong ss) (latest_first ss) cache in
    let others = count_endpoints policy_id user_key now groups here.1 in
    (here.0 ++ others.0, others.1)

unfoldable pub has_endpoint : Session → Bool
unfolding session_endpoint_identity
has_endpoint s = has_text (session_endpoint_identity s).0

unfoldable pub deduplicate_user_stream_sessions :
    ℕ → UserKey → List Session → ℕ → List Overlap → List Session × List Overlap
unfolding count_endpoints session_endpoint_identity has_endpoint group_by
deduplicate_user_stream_sessions policy_id user_key sessions now cache =
    if ltb (length sessions) 2
    then (sessions, cache)
    else (let kept = delete_rows (λ o. ltb sync_ttl_seconds (now - o.ts)) cache in
        let groups =
          group_by (λ s. (session_endpoint_identity s).0) (where_rows has_endpoint sessions) in
        let counted = count_endpoints policy_id user_key now groups kept in
        (where_rows (λ s. not (has_endpoint s)) sessions ++ counted.0, counted.1))
