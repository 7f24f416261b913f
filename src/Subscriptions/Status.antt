-- ===== src/Subscriptions/Status.antt =====
-- app/tasks/update_user_status.py: the status of each user by the day of expiry. A day is a number.
-- Every statement names one user by the primary key, so that a run is a step on each row.
use vodum.Common.{
  ℕ, zero, suc, ◌+◌, ◌-◌, Bool, true, false, not, ◌&&◌, ◌||◌, Option, none, some, List, [], ◌∷◌,
  map, ltb, leb, ◌==◌, if◌then◌else◌,
}

-- `unset` is NULL.
pub data UserStatus : Type 0 where
  active pre_expired reminder expired invited unfriended suspended unknown unset : UserStatus

-- The text of a date: empty or NULL, a day, a day with a time behind it, or anything else.
pub data Expiration : Type 0 where
  missing invalid : Expiration
  day stamped : ℕ → Expiration

-- A row of media_users; the texts are told by whether they are empty.
pub record MediaUser : Type 0 where
  pub is_plex : Bool
  pub is_accepted : Bool
  pub is_pending : Bool
  pub has_external_id : Bool
  pub has_name : Bool

-- A row of vodum_users, with `is_lifetime` of its template and its media_users.
pub record User : Type 0 where
  pub status : UserStatus
  pub last_status : UserStatus
  pub status_changed_at : Option ℕ
  pub expiration_date : Expiration
  pub expiration_date_override : Bool
  pub is_lifetime : Bool
  pub media_users : List MediaUser

pub record Delays : Type 0 where
  pub preavis_days : ℕ
  pub reminder_days : ℕ
  pub default_subscription_days : ℕ

abbrev pub is_plex_accepted : List MediaUser → Bool
is_plex_accepted [] = false
is_plex_accepted (m ∷ ms) = (m.is_plex && m.is_accepted) || is_plex_accepted ms

abbrev pub is_invited : MediaUser → Bool
is_invited m =
    m.is_plex && not m.is_accepted && (m.is_pending || (not m.has_external_id && m.has_name))

abbrev pub is_plex_pending : List MediaUser → Bool
is_plex_pending [] = false
is_plex_pending (m ∷ ms) = is_invited m || is_plex_pending ms

unfoldable pub user_has_pending_plex_invite : List MediaUser → Bool
user_has_pending_plex_invite ms = is_plex_pending ms && not (is_plex_accepted ms)

-- `_parse_iso_date` reads the first ten characters.
unfoldable pub parse_iso_date : Expiration → Option ℕ
parse_iso_date Expiration.missing = none
parse_iso_date Expiration.invalid = none
parse_iso_date (Expiration.day d) = some d
parse_iso_date (Expiration.stamped d) = some d

abbrev pub is_before : Option ℕ → ℕ → Bool
is_before none target = true
is_before (some d) target = ltb d target

unfoldable pub compute_pending_invite_expiration : Expiration → ℕ → ℕ → Option ℕ
compute_pending_invite_expiration e today days =
    if days == 0
    then none
    else if is_before (parse_iso_date e) (today + days)
    then some (today + days)
    else none

-- By the days that are left.
unfoldable pub status_of_day : ℕ → ℕ → Delays → UserStatus
status_of_day d today delays =
    if leb d today
    then UserStatus.expired
    else if leb (d - today) delays.reminder_days
    then UserStatus.reminder
    else if leb (d - today) delays.preavis_days
    then UserStatus.pre_expired
    else UserStatus.active

unfoldable pub compute_status : Expiration → ℕ → Delays → Option UserStatus
compute_status Expiration.missing today delays = none
compute_status Expiration.invalid today delays = some UserStatus.active
compute_status (Expiration.stamped d) today delays = some UserStatus.active
compute_status (Expiration.day d) today delays = some (status_of_day d today delays)

abbrev pub same_status : UserStatus → UserStatus → Bool
same_status UserStatus.active UserStatus.active = true
same_status UserStatus.pre_expired UserStatus.pre_expired = true
same_status UserStatus.reminder UserStatus.reminder = true
same_status UserStatus.expired UserStatus.expired = true
same_status UserStatus.invited UserStatus.invited = true
same_status UserStatus.unfriended UserStatus.unfriended = true
same_status UserStatus.suspended UserStatus.suspended = true
same_status UserStatus.unknown UserStatus.unknown = true
same_status UserStatus.unset UserStatus.unset = true
same_status _ _ = false

-- `SET status = ?, last_status = ?, status_changed_at = datetime('now')`
abbrev pub set_status : ℕ → UserStatus → UserStatus → User → User
set_status now new old u = record u {
  status = new;
  last_status = old;
  status_changed_at = some now;
}

-- `old_status or "active"`
abbrev pub or_active : UserStatus → UserStatus
or_active UserStatus.unset = UserStatus.active
or_active s = s

abbrev pub is_missing : Expiration → Bool
is_missing Expiration.missing = true
is_missing _ = false

abbrev pub has_none : List MediaUser → Bool
has_none [] = true
has_none (m ∷ ms) = false

unfoldable pub is_orphan : User → Bool
is_orphan u = is_missing u.expiration_date && not u.is_lifetime && has_none u.media_users

unfoldable pub expire_orphan : ℕ → User → User
expire_orphan now u =
    if is_orphan u && not (same_status (or_active u.status) UserStatus.expired)
    then set_status now UserStatus.expired (or_active u.status) u
    else u

abbrev pub is_manual : UserStatus → Bool
is_manual s = same_status s UserStatus.suspended || same_status s UserStatus.unfriended

abbrev pub shift_to : Option ℕ → User → User
shift_to none u = u
shift_to (some d) u = record u { expiration_date = Expiration.day d }

-- The branch of an open invitation: `old` is the status that was loaded.
unfoldable pub update_invited : ℕ → UserStatus → Option ℕ → User → User
update_invited now old new_expiration u =
    if same_status old UserStatus.invited
    then shift_to new_expiration u
    else shift_to new_expiration (set_status now UserStatus.invited old u)

-- `while new - preavis <= today: new += 365`, with fuel.
unfoldable pub roll : ℕ → ℕ → ℕ → ℕ
roll zero limit d = d
roll (suc fuel) limit d = let rest = roll fuel limit (d + 365) in if leb d limit then rest else d

-- The day from which an override counts, or none where the text is no date.
abbrev pub override_day : Expiration → ℕ → Option ℕ
override_day Expiration.missing today = some today
override_day (Expiration.day d) today = some d
override_day Expiration.invalid today = none
override_day (Expiration.stamped d) today = none

-- `status != 'active'`, which is unknown for NULL, so that CASE takes its ELSE.
abbrev pub is_other_than_active : UserStatus → Bool
is_other_than_active UserStatus.unset = false
is_other_than_active s = not (same_status s UserStatus.active)

unfoldable pub renew : ℕ → ℕ → User → User
renew now d u =
    if is_other_than_active u.status
    then record u {
      expiration_date = Expiration.day d;
      status = UserStatus.active;
      last_status = u.status;
      status_changed_at = some now;
    }
    else record u { expiration_date = Expiration.day d; status = UserStatus.active }

unfoldable pub store_status : ℕ → UserStatus → Option UserStatus → User → User
store_status now old none u = u
store_status now old (some new) u = if same_status new old then u else set_status now new old u

-- The override, and otherwise the usual case.
unfoldable pub update_override : Delays → ℕ → ℕ → UserStatus → Expiration → Option ℕ → User → User
update_override delays today now old e none u =
    store_status now old (compute_status e today delays) u
update_override delays today now old e (some d) u =
    if leb d (today + delays.preavis_days)
    then renew now (roll (suc (today + delays.preavis_days)) (today + delays.preavis_days) d) u
    else store_status now old (compute_status e today delays) u

-- The body of the main loop: `loaded` is the row as it was before the orphans were expired.
unfoldable pub update_loaded : Delays → ℕ → ℕ → User → User → User
update_loaded delays today now loaded u =
    if is_manual loaded.status
    then u
    else if user_has_pending_plex_invite loaded.media_users
    then update_invited now loaded.status
        (compute_pending_invite_expiration loaded.expiration_date today
          delays.default_subscription_days)
        u
    else update_override delays today now loaded.status loaded.expiration_date
        (if loaded.expiration_date_override || loaded.is_lifetime
          then override_day loaded.expiration_date today
          else none)
        u

unfoldable pub update_user : Delays → ℕ → ℕ → User → User
update_user delays today now u = update_loaded delays today now u (expire_orphan now u)

-- Without the row of settings an exception is raised before any change.
unfoldable pub update_user_status : Option Delays → ℕ → ℕ → List User → Option (List User)
update_user_status none today now users = none
update_user_status (some delays) today now users = some (map (update_user delays today now) users)
