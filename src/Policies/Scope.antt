-- ===== src/Policies/Scope.antt =====
-- app/core/stream_policy_scope.py, stream_policy_utils.py and stream_violation_recheck.py: which
-- sessions a policy is about, which one is stopped, and what counts as the same violation later.
use vodum.Common.{
  ℕ, ◌+◌, Bool, true, false, not, ◌&&◌, ◌||◌, Option, none, some, List, [], ◌∷◌, String, str_eq,
  ltb, ◌==◌, find_row, where_rows, if◌then◌else◌,
}
use vodum.State.{Provider}
use vodum.AutoEnable.{is_provider}

-- A live session; its texts are stripped and in lower case, and a missing one is empty. Of its JSON
-- text it holds the values under the keys for a machine, in their order, the one under `Id`, and the height.
pub record Session : Type 0 where
  pub provider : Provider
  pub server_id : ℕ
  pub vodum_user_id : Option ℕ
  pub session_key : String
  pub media_type : String
  pub grandparent_title : String
  pub parent_title : String
  pub title : String
  pub media_key : String
  pub started_at : Option ℕ
  pub last_seen_at : Option ℕ
  pub is_transcode : Bool
  pub external_user_id : String
  pub machine_ids : List String
  pub json_id : String
  pub ip : String
  pub device : String
  pub client_product : String
  pub client_name : String
  pub bitrate : ℕ
  pub media_height : Option ℕ

pub data ScopeType : Type 0 where
  global server user other_scope : ScopeType

pub record Policy : Type 0 where
  pub provider : Option Provider
  pub server_id : Option ℕ
  pub scope_type : ScopeType
  pub scope_id : Option ℕ

-- A text is true in Python unless it is empty.
abbrev pub has_text : String → Bool
has_text s = not (str_eq s "")

-- `scope_id is not None and int(scope_id) == n`
abbrev pub is_scope : Option ℕ → ℕ → Bool
is_scope none n = false
is_scope (some m) n = m == n

-- A filter that is NULL, or a server 0, lets every session pass.
abbrev pub provider_fits : Option Provider → Provider → Bool
provider_fits none p = true
provider_fits (some q) p = is_provider q p

abbrev pub server_fits : Option ℕ → ℕ → Bool
server_fits none n = true
server_fits (some m) n = m == 0 || m == n

abbrev pub scope_fits : ScopeType → Option ℕ → Session → Bool
scope_fits global scope_id s = true
scope_fits server scope_id s = is_scope scope_id s.server_id
scope_fits user scope_id s = elim s.vodum_user_id [ none ↦ false | some u ↦ is_scope scope_id u ]
scope_fits other_scope scope_id s = false

unfoldable pub policy_applies : Policy → Session → Bool
policy_applies p s =
    provider_fits p.provider s.provider
    && server_fits p.server_id s.server_id
    && scope_fits p.scope_type p.scope_id s

-- `started_at or last_seen_at`
abbrev pub start_of : Session → Option ℕ
start_of s = elim s.started_at [ none ↦ s.last_seen_at | some t ↦ some t ]

-- The text of the start as a key for sorting: the empty text comes before every time.
abbrev pub session_started_ts : Session → ℕ
session_started_ts s = elim (start_of s) [ none ↦ 0 | some t ↦ t + 1 ]

-- `sorted(sessions, key=session_started_ts)[0]`, and with `reverse=True`: both sorts are stable.
unfoldable pub oldest : List Session → Option Session
oldest [] = none
oldest (s ∷ ss) = elim (oldest ss) [
  | none ↦ some s
  | some r ↦ if ltb (session_started_ts r) (session_started_ts s) then some r else some s
]

unfoldable pub newest : List Session → Option Session
newest [] = none
newest (s ∷ ss) = elim (newest ss) [
  | none ↦ some s
  | some r ↦ if ltb (session_started_ts s) (session_started_ts r) then some r else some s
]

unfoldable pub pick_kill_target : List Session → String → Option Session
pick_kill_target sessions selector =
    if str_eq selector "kill_oldest"
    then oldest sessions
    else if str_eq selector "kill_transcoding_first"
    then elim (newest (where_rows (λ s. s.is_transcode) sessions)) [
      | some s ↦ some s
      | none ↦ newest sessions
    ]
    else newest sessions

-- A violation: its kind, the pair `target_user`, the server, the sessions and the selector.
pub record Violation : Type 0 where
  pub kind : String
  pub user_id : Option ℕ
  pub actor : String
  pub server_id : ℕ
  pub provider : Provider
  pub sessions : List Session
  pub selector : String

abbrev same_user : Option ℕ → Option ℕ → Bool
same_user none none = true
same_user (some m) (some n) = m == n
same_user _ _ = false

abbrev pub is_same_actor : Violation → Violation → Bool
is_same_actor previous c =
    str_eq c.kind previous.kind
    && same_user c.user_id previous.user_id
    && str_eq c.actor previous.actor

-- SERVER_BOUND_ACTORS
abbrev pub is_synthetic : String → Bool
is_synthetic a = str_eq a "server" || str_eq a "4k" || str_eq a "bitrate" || str_eq a "device"

-- What follows the search for a candidate on the same server.
unfoldable pub recheck_elsewhere : Violation → List Violation → Option Violation → Option Violation
recheck_elsewhere previous candidates (some c) = some c
recheck_elsewhere previous candidates none =
    if is_synthetic previous.actor then none else find_row (is_same_actor previous) candidates

unfoldable pub select_rechecked_violation : Violation → List Violation → Option Violation
select_rechecked_violation previous candidates =
    recheck_elsewhere previous candidates
      (find_row (λ c. is_same_actor previous c && c.server_id == previous.server_id) candidates)
