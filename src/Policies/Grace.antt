-- ===== src/Policies/Grace.antt =====
-- app/core/policy_transition_grace.py: the grace for a probable switch of devices. The lock makes a
-- call one step; the dictionary is a list of entries, whose key is a triple in place of a text.
use vodum.Common.{
  ℕ, ◌+◌, ◌-◌, Bool, true, false, not, ◌&&◌, ◌||◌, Option, none, some, List, [], ◌∷◌, ◌++◌, String,
  str_eq, ltb, leb, ◌==◌, find_row, where_rows, delete_rows, if◌then◌else◌,
}
use Prim.Native.String.{◌++◌ as str_append}
use vodum.Policies.Scope.{Session, start_of, has_text}
use vodum.Policies.Keys.{UserKey, same_key}

abbrev pub stream_switch_grace_seconds : ℕ
stream_switch_grace_seconds = 300

abbrev pub cache_retention_seconds : ℕ
cache_retention_seconds = 3600

pub record Entry : Type 0 where
  pub policy_id : ℕ
  pub user_key : UserKey
  pub identity : String
  pub first_seen : ℕ

-- The arguments of a call, less the clock.
pub record Overage : Type 0 where
  pub policy_id : ℕ
  pub user_key : UserKey
  pub sessions : List Session
  pub limit : ℕ
  pub current_count : ℕ

unfoldable pub playback_identity : Session → String
playback_identity s =
    if (str_eq s.media_type "episode" || str_eq s.media_type "series" || str_eq s.media_type "show")
      && has_text s.grandparent_title
      && has_text s.title
    then str_append "episode:" (
        str_append s.grandparent_title
          (str_append ":" (str_append s.parent_title (str_append ":" s.title))))
    else if (str_eq s.media_type "movie" || str_eq s.media_type "film") && has_text s.title
    then str_append "movie:" s.title
    else if has_text s.media_key
    then str_append "key:" s.media_key
    else if has_text s.title
    then str_append "title:" s.title
    else ""

unfoldable pub is_playing : String → Session → Bool
unfolding playback_identity
is_playing i s = str_eq (playback_identity s) i

-- Two sessions with keys that are neither empty nor equal.
unfoldable pub has_other_key : String → List Session → Bool
has_other_key k [] = false
has_other_key k (s ∷ ss) =
    if has_text s.session_key && not (str_eq s.session_key k) then true else has_other_key k ss

unfoldable pub has_two_keys : List Session → Bool
unfolding has_other_key
has_two_keys [] = false
has_two_keys (s ∷ ss) =
    if has_text s.session_key then has_other_key s.session_key ss else has_two_keys ss

-- The first identity, in the order of the sessions, whose group has two keys.
first_switch : List Session → List Session → Option String
unfolding has_two_keys is_playing
first_switch all [] = none
first_switch all (s ∷ ss) =
    if has_text (playback_identity s)
      && has_two_keys (where_rows (is_playing (playback_identity s)) all)
    then some (playback_identity s)
    else first_switch all ss

unfoldable pub probable_switch_identity : List Session → Option String
unfolding first_switch
probable_switch_identity sessions = first_switch sessions sessions

-- `max(starts)` over the sessions with the identity.
unfoldable pub latest_start : String → List Session → Option ℕ
unfolding is_playing
latest_start i [] = none
latest_start i (s ∷ ss) =
    let rest = latest_start i ss in
    if is_playing i s
    then elim (start_of s) [
      | none ↦ rest
      | some t ↦ elim rest [ none ↦ some t | some u ↦ some (if ltb t u then u else t) ]
    ]
    else rest

-- `0 <= now - max(starts) <= STREAM_SWITCH_GRACE_SECONDS`
abbrev pub is_recent : ℕ → Option ℕ → Bool
is_recent now none = false
is_recent now (some t) = leb t now && leb (now - t) stream_switch_grace_seconds

abbrev pub of_actor : Overage → Entry → Bool
of_actor r e = e.policy_id == r.policy_id && same_key e.user_key r.user_key

abbrev pub has_entry : Overage → String → Entry → Bool
has_entry r i e = of_actor r e && str_eq e.identity i

unfoldable pub defer_seen : Overage → ℕ → String → Option Entry → List Entry → Bool × List Entry
unfolding latest_start
defer_seen r now i (some e) seen = (ltb (now - e.first_seen) stream_switch_grace_seconds, seen)
defer_seen r now i none seen =
    if is_recent now (latest_start i r.sessions)
    then (
      true,
      seen
          ++ record {
            policy_id = r.policy_id;
            user_key = r.user_key;
            identity = i;
            first_seen = now;
          }
            ∷ [],
    )
    else (false, seen)

unfoldable pub defer_identity : Overage → ℕ → Option String → List Entry → Bool × List Entry
unfolding defer_seen
defer_identity r now none seen = (false, seen)
defer_identity r now (some i) seen = defer_seen r now i (find_row (has_entry r i) seen) seen

unfoldable pub should_defer_stream_violation : Overage → ℕ → List Entry → Bool × List Entry
unfolding probable_switch_identity defer_identity
should_defer_stream_violation r now seen =
    let kept = delete_rows (λ e. ltb cache_retention_seconds (now - e.first_seen)) seen in
    if leb r.current_count r.limit || not (r.current_count == r.limit + 1)
    then (false, delete_rows (of_actor r) kept)
    else defer_identity r now (probable_switch_identity r.sessions) kept

unfoldable pub reset_stream_transition_grace : List Entry → List Entry
reset_stream_transition_grace seen = []
