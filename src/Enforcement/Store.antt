-- ===== src/Enforcement/Store.antt =====
-- app/core/stream_enforcement_store.py: the tables stream_enforcement_state and stream_enforcements.
-- CURRENT_TIMESTAMP is the argument `now`, in seconds.
use vodum.Common.{
  ℕ, ◌+◌, ◌*◌, Bool, false, ◌&&◌, Option, none, some, List, [], ◌∷◌, ◌++◌, String, str_eq, leb,
  ◌==◌, find_row, if◌then◌else◌, is_some,
}
use vodum.State.{Provider}
use vodum.Policies.{has_text}

-- `"vodum:5"` and `"ext:…"`
pub data ActorKey : Type 0 where
  by_id : ℕ → ActorKey
  by_text : String → ActorKey

unfoldable pub actor_key : Option ℕ → String → ActorKey
actor_key (some u) external = ActorKey.by_id u
actor_key none external =
    if has_text external then ActorKey.by_text external else ActorKey.by_text "unknown"

abbrev pub same_actor_key : ActorKey → ActorKey → Bool
same_actor_key (ActorKey.by_id u) (ActorKey.by_id v) = u == v
same_actor_key (ActorKey.by_id u) (ActorKey.by_text t) = false
same_actor_key (ActorKey.by_text s) (ActorKey.by_id v) = false
same_actor_key (ActorKey.by_text s) (ActorKey.by_text t) = str_eq s t

-- The columns of the UNIQUE constraint.
pub record StateKey : Type 0 where
  pub policy_id : ℕ
  pub server_id : ℕ
  pub actor_key : ActorKey

abbrev pub same_state_key : StateKey → StateKey → Bool
same_state_key a b =
    a.policy_id == b.policy_id
    && a.server_id == b.server_id
    && same_actor_key a.actor_key b.actor_key

pub record StateRow : Type 0 where
  pub key : StateKey
  pub vodum_user_id : Option ℕ
  pub external_user_id : String
  pub first_seen_at : ℕ
  pub last_seen_at : ℕ
  pub warned_at : Option ℕ
  pub killed_at : Option ℕ

unfoldable pub state_key : ℕ → ℕ → Option ℕ → String → StateKey
unfolding actor_key
state_key policy_id server_id user external = record {
  policy_id = policy_id;
  server_id = server_id;
  actor_key = actor_key user external;
}

abbrev pub is_key : StateKey → StateRow → Bool
is_key k r = same_state_key r.key k

-- `UPDATE … WHERE id = ?`, for the row that was found.
abbrev pub update_found {ℓ} : {A : Type ℓ} → (A → Bool) → (A → A) → List A → List A
update_found p f [] = []
update_found p f (x ∷ xs) = if p x then f x ∷ xs else x ∷ update_found p f xs

abbrev pub when_set : Bool → ℕ → Option ℕ → Option ℕ
when_set b now old = if b then some now else old

abbrev pub touch : ℕ → Bool → Bool → StateRow → StateRow
touch now warned killed r = record r {
  last_seen_at = now;
  warned_at = when_set warned now r.warned_at;
  killed_at = when_set killed now r.killed_at;
}

abbrev pub new_state : ℕ → StateKey → Option ℕ → String → Bool → Bool → StateRow
new_state now k user external warned killed = record {
  key = k;
  vodum_user_id = user;
  external_user_id = external;
  first_seen_at = now;
  last_seen_at = now;
  warned_at = when_set warned now none;
  killed_at = when_set killed now none;
}

unfoldable pub upsert_state :
    ℕ → ℕ → ℕ → Option ℕ → String → Bool → Bool → List StateRow → List StateRow
upsert_state now policy_id server_id user external warned killed rows =
    let k = state_key policy_id server_id user external in
    if is_some (find_row (is_key k) rows)
    then update_found (is_key k) (touch now warned killed) rows
    else rows ++ new_state now k user external warned killed ∷ []

-- `datetime(warned_at) >= datetime('now', '-N minutes')`
abbrev pub is_since : ℕ → ℕ → Option ℕ → Bool
is_since now minutes none = false
is_since now minutes (some t) = leb now (t + 60 * minutes)

unfoldable pub already_warned_recently : ℕ → ℕ → ℕ → Option ℕ → String → ℕ → List StateRow → Bool
already_warned_recently now policy_id server_id user external minutes rows =
    let k = state_key policy_id server_id user external in
    is_some (find_row (λ r. is_key k r && is_since now minutes r.warned_at) rows)

pub data Action : Type 0 where
  warn kill kill_failed : Action

-- A row of stream_enforcements, without its texts on the reason and the sessions.
pub record Enforced : Type 0 where
  pub policy_id : ℕ
  pub server_id : ℕ
  pub provider : Provider
  pub session_key : String
  pub vodum_user_id : Option ℕ
  pub external_user_id : String
  pub action : Action
  pub created_at : ℕ

unfoldable pub log_enforcement : Enforced → List Enforced → List Enforced
log_enforcement row log = log ++ row ∷ []
