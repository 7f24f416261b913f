-- ===== src/Enforcement/Load.antt =====
-- app/core/stream_enforcer_repository.py: the policies, the overrides and the live sessions that a run
-- reads. The join of media_sessions with servers and media_users is a list of its rows.
use vodum.Common.{
  ℕ, ◌+◌, Bool, true, false, not, ◌&&◌, ◌||◌, Option, none, some, List, [], ◌∷◌, map, ltb, leb,
  ◌==◌, where_rows, sort_by, if◌then◌else◌,
}
use vodum.State.{Provider}
use vodum.Policies.{Session, or_else}
use vodum.Enforcement.Rules.{StreamPolicy}

abbrev pub live_window_seconds : ℕ
live_window_seconds = 90

abbrev pub live_stable_seconds : ℕ
live_stable_seconds = 15

-- A row of vodum_users: its id, and `max_streams_override` if that is not NULL.
unfoldable pub load_user_stream_overrides : List (ℕ × Option ℕ) → List (ℕ × ℕ)
load_user_stream_overrides [] = []
load_user_stream_overrides ((u, none) ∷ users) = load_user_stream_overrides users
load_user_stream_overrides ((u, some n) ∷ users) =
    let rest = load_user_stream_overrides users in if ltb 0 n then (u, n) ∷ rest else rest

-- `ORDER BY priority ASC, id ASC`
abbrev pub policy_goes_first : StreamPolicy → StreamPolicy → Bool
policy_goes_first p q = ltb p.priority q.priority || (p.priority == q.priority && leb p.id q.id)

unfoldable pub load_enabled_policies : List StreamPolicy → List StreamPolicy
load_enabled_policies policies =
    sort_by policy_goes_first (where_rows (λ (p : StreamPolicy). p.is_enabled) policies)

-- A row of media_sessions with what is read of its server.
pub record LiveRow : Type 0 where
  pub session : Session
  pub is_down : Bool
  pub cooldown_until : Option ℕ
  pub missing_count : ℕ

abbrev pub is_known : Provider → Bool
is_known Provider.plex = true
is_known Provider.jellyfin = true
is_known Provider.other = false

abbrev pub at_most : Option ℕ → ℕ → Bool
at_most none n = false
at_most (some t) n = leb t n

abbrev pub is_over : Option ℕ → ℕ → Bool
is_over none now = true
is_over (some t) now = leb t now

-- The times are compared by their sum with the seconds, so that none of them falls below 0.
abbrev pub is_seen_since : Option ℕ → ℕ → ℕ → Bool
is_seen_since none window_seconds now = false
is_seen_since (some t) window_seconds now = leb now (t + window_seconds)

abbrev pub is_stable : Option ℕ → ℕ → ℕ → Bool
is_stable none stable_seconds now = false
is_stable (some t) stable_seconds now = leb (t + stable_seconds) now

unfoldable pub is_live : ℕ → ℕ → ℕ → LiveRow → Bool
is_live window_seconds stable_seconds now r =
    is_known r.session.provider
    && not r.is_down
    && is_over r.cooldown_until now
    && is_seen_since r.session.last_seen_at window_seconds now
    && r.missing_count == 0
    && is_stable (or_else r.session.started_at r.session.last_seen_at) stable_seconds now

unfoldable pub load_live_sessions : ℕ → ℕ → ℕ → List LiveRow → List Session
unfolding is_live
load_live_sessions window_seconds stable_seconds now rows =
    map (λ (r : LiveRow). r.session)
      (sort_by (λ (r s : LiveRow). leb r.session.server_id s.session.server_id)
        (where_rows (is_live window_seconds stable_seconds now) rows))
