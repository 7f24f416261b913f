-- ===== src/Cooldown.antt =====
-- app/core/server_cooldown.py: the pause after a server did not answer. A time is a number of seconds;
-- a stored time that cannot be read is none.
use vodum.Common.{
  ℕ, ◌+◌, ◌-◌, ◌==◌, Bool, true, false, ◌||◌, Option, none, some, List, String, ltb, update_rows,
}

-- `status`: the text `down`, or another one.
pub data ServerStatus : Type 0 where
  down other_status : ServerStatus

pub record ServerRow : Type 0 where
  pub id : ℕ
  pub status : ServerStatus
  pub has_url : Bool
  pub has_token : Bool
  pub last_checked : Option ℕ
  pub unavailable_since : Option ℕ
  pub cooldown_until : Option ℕ
  pub last_failure : Option String

-- The difference is not negative, as `-` stops at 0.
unfoldable pub get_server_cooldown_remaining_seconds : ℕ → ServerRow → ℕ
get_server_cooldown_remaining_seconds now s = elim s.cooldown_until [ none ↦ 0 | some t ↦ t - now ]

unfoldable pub is_server_in_cooldown : ℕ → ServerRow → Bool
unfolding get_server_cooldown_remaining_seconds
is_server_in_cooldown now s = ltb 0 (get_server_cooldown_remaining_seconds now s)

abbrev pub is_down : ServerStatus → Bool
is_down down = true
is_down other_status = false

unfoldable pub should_skip_unreachable_server : ℕ → ServerRow → Bool
unfolding is_server_in_cooldown
should_skip_unreachable_server now s = is_down s.status || is_server_in_cooldown now s

abbrev pub is_server : ℕ → ServerRow → Bool
is_server i s = s.id == i

abbrev pub or_now : ℕ → Option ℕ → ℕ
or_now now none = now
or_now now (some t) = t

-- `seconds` is 300 unless the caller says otherwise; `reason` is cut to 1000 characters.
unfoldable pub mark_server_unreachable : ℕ → ℕ → String → ℕ → List ServerRow → List ServerRow
mark_server_unreachable now i reason seconds servers =
    update_rows (is_server i)
      (λ (s : ServerRow). record s {
        status = down;
        last_checked = some now;
        unavailable_since = some (or_now now s.unavailable_since);
        cooldown_until = some (now + seconds);
        last_failure = some reason;
      })
      servers

unfoldable pub clear_server_cooldown : ℕ → List ServerRow → List ServerRow
clear_server_cooldown i servers =
    update_rows (is_server i)
      (λ (s : ServerRow). record s {
        cooldown_until = none;
        unavailable_since = none;
        last_failure = none;
      })
      servers
