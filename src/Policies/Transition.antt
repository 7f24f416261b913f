-- ===== src/Policies/Transition.antt =====
-- app/core/stream_ip_transition_grace.py: the grace for a switch of networks within one programme.
-- IP_GRACE_CACHE is a list of its entries, and a call's clock one number of seconds.
use vodum.Common.{
  ℕ, ◌+◌, ◌-◌, Bool, true, false, not, ◌||◌, Option, none, some, List, [], ◌∷◌, ◌++◌, ltb, leb,
  ◌==◌, length, find_row, update_rows, delete_rows, if◌then◌else◌,
}
use vodum.Policies.Scope.{Session}
use vodum.Policies.Endpoint.{is_coherent_media_transition}
use vodum.Policies.Keys.{UserKey, GraceKey, same_grace, ip_grace_key}

abbrev pub household_media_grace_seconds : ℕ
household_media_grace_seconds = 300

pub record Graced : Type 0 where
  pub key : GraceKey
  pub first_seen : ℕ

-- `IP_GRACE_CACHE.get(key)`, and what follows it.
unfoldable pub grace_switch : ℕ → GraceKey → Option Graced → List Graced → Bool × List Graced
grace_switch now key none cache = (true, cache ++ record { key = key; first_seen = now } ∷ [])
grace_switch now key (some g) cache =
    if g.first_seen == 0
    then (true, update_rows (λ h. same_grace key h.key) (λ h. record h { first_seen = now }) cache)
    else if leb (now - g.first_seen) household_media_grace_seconds
    then (true, cache)
    else (false, delete_rows (λ h. same_grace key h.key) cache)

unfoldable pub kept_graces : ℕ → List Graced → List Graced
kept_graces now cache =
    delete_rows (λ g. ltb household_media_grace_seconds (now - g.first_seen)) cache

-- The arguments are the policy, the user, the sessions, how many addresses they have and may have,
-- and the clock.
unfoldable pub should_grace_coherent_ip_switch :
    ℕ → UserKey → List Session → ℕ → ℕ → ℕ → List Graced → Bool × List Graced
unfolding is_coherent_media_transition grace_switch kept_graces
should_grace_coherent_ip_switch policy_id user_key sessions ips max_ips now cache =
    let kept = kept_graces now cache in
    if ltb (max_ips + 1) ips
      || ltb (length sessions) 2
      || not (is_coherent_media_transition sessions)
    then (false, kept)
    else (let key = ip_grace_key policy_id user_key sessions in
        grace_switch now key (find_row (λ g. same_grace key g.key) kept) kept)
