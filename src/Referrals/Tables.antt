-- ===== src/Referrals/Tables.antt =====
-- app/tasks/process_referral_rewards.py and referral_cleanup.py: the tables of referrals. A time is a
-- number of seconds, a day is one of 86400; `now` is SQLite's clock and `today` is `date.today()`.
use vodum.Common.{
  ℕ, ◌==◌, Bool, true, false, Option, some, List, [], ◌∷◌, ◌++◌, update_rows, if◌then◌else◌,
}
use vodum.Tasks.{db_error}
use vodum.State.{Result, ok, raised}
use vodum.Subscriptions.{UserStatus, Expiration}
use vodum.Subscriptions.Tables.{Office}

pub data ReferralStatus : Type 0 where
  pending qualified rewarded expired archived cancelled : ReferralStatus

-- `last_error`: the texts of the task.
pub data ReferralError : Type 0 where
  not_eligible : UserStatus → ReferralError
  not_found update_failed no_context no_template : ReferralError

pub record Referral : Type 0 where
  pub id : ℕ
  pub referrer_user_id : ℕ
  pub referred_user_id : ℕ
  pub status : ReferralStatus
  pub qualification_due_at : Option ℕ
  pub qualified_at : Option ℕ
  pub reward_days_snapshot : ℕ
  pub reward_granted_at : Option ℕ
  pub reward_expiration_before : Expiration
  pub reward_expiration_after : Option ℕ
  pub expired_at : Option ℕ
  pub archived_at : Option ℕ
  pub last_error : Option ReferralError

-- `event_type`: those of the CHECK of user_referral_events, and one more that the task writes.
pub data EventType : Type 0 where
  created referrer_changed qualification reward_granted notification_sent cancellation : EventType
  notification_queued : EventType

pub record Event : Type 0 where
  pub referral_id : ℕ
  pub event_type : EventType

-- The row of user_referral_settings.
pub record ReferralSettings : Type 0 where
  pub enabled : Bool
  pub reward_enabled : Bool
  pub auto_notify_reward : Bool
  pub eligible_statuses : List UserStatus
  pub auto_expire_pending : Bool
  pub auto_archive_rewarded : Bool
  pub auto_archive_expired : Bool
  pub rewarded_archive_days : ℕ
  pub expired_archive_days : ℕ

pub record Program : Type 0 where
  pub settings : Option ReferralSettings
  pub referrals : List Referral
  pub events : List Event
  pub office : Office

abbrev pub is_referral : ℕ → Referral → Bool
is_referral i r = r.id == i

abbrev pub is_pending : ReferralStatus → Bool
is_pending pending = true
is_pending _ = false

-- The CHECK of the table.
abbrev pub is_known_event : EventType → Bool
is_known_event notification_queued = false
is_known_event _ = true

unfoldable pub log_event : ℕ → EventType → Program → Result (Unit {0}) × Program
log_event i e p =
    if is_known_event e
    then (ok tt, record p { events = p.events ++ record { referral_id = i; event_type = e } ∷ [] })
    else (raised db_error, p)

abbrev pub update_referral : ℕ → (Referral → Referral) → Program → Program
update_referral i f p = record p { referrals = update_rows (is_referral i) f p.referrals }

abbrev pub fail_row : ReferralError → Referral → Referral
fail_row e r = record r { last_error = some e }
