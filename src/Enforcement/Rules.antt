-- ===== src/Enforcement/Rules.antt =====
-- app/tasks/stream_enforcer.py, `_evaluate_policy`: the policies, the early returns, and the rules that
-- are applied to each server for itself.
use vodum.Common.{
  ℕ, Bool, false, not, ◌&&◌, ◌||◌, Option, none, some, List, [], ◌∷◌, ◌++◌, String, str_eq, ltb,
  leb, ◌==◌, length, where_rows, if◌then◌else◌, group_by, any,
}
use vodum.State.{Provider}
use vodum.AutoEnable.{is_provider}
use vodum.Policies.{
  Session, Policy, ScopeType, Violation, Entry, Overlap, Recent, Graced, Addresses, has_text,
  number_keys,
}

pub data RuleType : Type 0 where
  max_streams_per_user max_ips_per_user max_streams_per_ip max_transcodes_global : RuleType
  ban_4k_transcode max_bitrate_kbps device_allowlist other_rule : RuleType

-- What is read of `rule_value_json`: a missing key is `none`, and the allowed devices are cleaned.
pub record Rule : Type 0 where
  pub max : Option ℕ
  pub max_kbps : Option ℕ
  pub ignore_unknown : Option Bool
  pub per_server : Option Bool
  pub allow_local_ip : Option Bool
  pub allowed : List String
  pub selector : Option String
  pub system_tag : String

-- A row of stream_policies.
pub record StreamPolicy : Type 0 where
  pub id : ℕ
  pub scope : Policy
  pub is_enabled : Bool
  pub priority : ℕ
  pub rule_type : RuleType
  pub rule : Rule

-- The four caches that outlive a run.
pub record Caches : Type 0 where
  pub switches : List Entry
  pub overlaps : List Overlap
  pub recent : Recent
  pub graced : List Graced

-- What an evaluation reads besides: the overrides of the users' limits and the clock.
pub record Context : Type 0 where
  pub net : Addresses
  pub overrides : List (ℕ × ℕ)
  pub now : ℕ

-- `rule.get(key, default)`
abbrev pub get_or {ℓ} : {A : Type ℓ} → Option A → A → A
get_or none d = d
get_or (some a) d = a

abbrev pub selector_of : StreamPolicy → String
selector_of p = get_or p.rule.selector "kill_newest"

-- A number is true in Python unless it is 0.
abbrev pub is_truthy : Option ℕ → Bool
is_truthy none = false
is_truthy (some n) = not (n == 0)

-- `int(value or 0)`
abbrev pub or_zero : Option ℕ → ℕ
or_zero n = get_or n 0

-- The fast pre-checks: no session is of the provider, on the server, or of the user.
unfoldable pub lacks_provider : Option Provider → List Session → Bool
lacks_provider none sessions = false
lacks_provider (some p) sessions = not (any (λ (s : Session). is_provider p s.provider) sessions)

unfoldable pub lacks_server : Option ℕ → List Session → Bool
lacks_server server_id sessions =
    is_truthy server_id && not (any (λ (s : Session). s.server_id == or_zero server_id) sessions)

unfoldable pub lacks_user : ScopeType → Option ℕ → List Session → Bool
lacks_user ScopeType.user scope_id sessions =
    is_truthy scope_id
    && not (any (λ (s : Session). or_zero s.vodum_user_id == or_zero scope_id) sessions)
lacks_user _ scope_id sessions = false

unfoldable pub is_out_of_scope : Policy → List Session → Bool
unfolding lacks_provider lacks_server lacks_user
is_out_of_scope p sessions =
    lacks_provider p.provider sessions
    || lacks_server p.server_id sessions
    || lacks_user p.scope_type p.scope_id sessions

-- One violation for each server, of all the sessions there.
abbrev pub server_violation : String → String → String → ℕ → List Session → List Violation
server_violation kind actor selector server_id [] = []
server_violation kind actor selector server_id (s ∷ ss) =
    record {
      kind = kind;
      user_id = none;
      actor = actor;
      server_id = server_id;
      provider = s.provider;
      sessions = s ∷ ss;
      selector = selector;
    }
    ∷ []

-- Of the groups those with more than `least` sessions.
unfoldable pub server_violations :
    String → String → String → ℕ → List (ℕ × List Session) → List Violation
server_violations kind actor selector least [] = []
server_violations kind actor selector least ((server_id, ss) ∷ groups) =
    (if ltb least (length ss) then server_violation kind actor selector server_id ss else [])
    ++ server_violations kind actor selector least groups

unfoldable pub by_server : List Session → List (ℕ × List Session)
unfolding group_by
by_server sessions = group_by (λ (s : Session). s.server_id) sessions

abbrev pub is_4k_transcode : Session → Bool
is_4k_transcode s = s.is_transcode && leb 2160 (or_zero s.media_height)

abbrev pub is_above : ℕ → Session → Bool
is_above max_kbps s = ltb 0 max_kbps && ltb max_kbps s.bitrate

abbrev pub device_of : Session → String
device_of s = if has_text s.device then s.device else s.client_product

abbrev pub is_refused : List String → Session → Bool
is_refused allowed s = has_text (device_of s) && not (any (λ a. str_eq a (device_of s)) allowed)

unfoldable pub transcode_violations : StreamPolicy → List Session → List Violation
unfolding server_violations by_server
transcode_violations p scoped =
    server_violations "server_transcodes" "server" (selector_of p) (get_or p.rule.max 1)
      (by_server (where_rows (λ (s : Session). s.is_transcode) scoped))

unfoldable pub height_violations : StreamPolicy → List Session → List Violation
unfolding server_violations by_server
height_violations p scoped =
    server_violations "4k_transcode" "4k" (selector_of p) 0
      (by_server (where_rows is_4k_transcode scoped))

unfoldable pub bitrate_violations : StreamPolicy → List Session → List Violation
unfolding server_violations by_server
bitrate_violations p scoped =
    server_violations "bitrate" "bitrate" (selector_of p) 0
      (by_server (where_rows (is_above (get_or p.rule.max_kbps 0)) scoped))

unfoldable pub device_violations : StreamPolicy → List Session → List Violation
unfolding server_violations by_server
device_violations p scoped = elim p.rule.allowed [
  | [] ↦ []
  | a ∷ allowed ↦
      server_violations "device" "device" (selector_of p) 0
        (by_server (where_rows (is_refused (a ∷ allowed)) scoped))
]
