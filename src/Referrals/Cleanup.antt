-- ===== src/Referrals/Cleanup.antt =====
-- app/tasks/referral_cleanup.py: which referrals are expired and which are archived.
use vodum.Common.{
  ℕ, ◌+◌, ◌*◌, ◌==◌, Bool, false, ◌&&◌, Option, none, some, List, ltb, update_rows, if◌then◌else◌,
}
use vodum.Referrals.Tables.{
  rewarded, expired, archived, Referral, ReferralSettings, Program, is_pending,
}

-- `WHERE status = 'pending' AND … datetime(qualification_due_at) < datetime('now')`
abbrev pub is_overdue : ℕ → Referral → Bool
is_overdue now r =
    is_pending r.status && elim r.qualification_due_at [ none ↦ false | some t ↦ ltb t now ]

abbrev pub expire_row : ℕ → Referral → Referral
expire_row now r = record r { status = expired; expired_at = some now }

abbrev pub archive_row : ℕ → Referral → Referral
archive_row now r = record r { status = archived; archived_at = some now }

-- `int(days or default)`, and a time that lies further back.
abbrev pub or_default : ℕ → ℕ → ℕ
or_default days default = if days == 0 then default else days

abbrev pub is_longer_ago : ℕ → ℕ → Option ℕ → Bool
is_longer_ago now days none = false
is_longer_ago now days (some t) = ltb (t + days * 86400) now

abbrev pub is_old_reward : ℕ → ℕ → Referral → Bool
is_old_reward now days r = elim r.status [
  | rewarded ↦ is_longer_ago now days r.reward_granted_at
  | _ ↦ false
]

abbrev pub is_old_expiry : ℕ → ℕ → Referral → Bool
is_old_expiry now days r = elim r.status [
  | expired ↦ is_longer_ago now days r.expired_at
  | _ ↦ false
]

unfoldable pub expire_pending : ReferralSettings → ℕ → List Referral → List Referral
expire_pending g now rs =
    if g.auto_expire_pending then update_rows (is_overdue now) (expire_row now) rs else rs

unfoldable pub archive_rewarded : ReferralSettings → ℕ → List Referral → List Referral
archive_rewarded g now rs =
    if g.auto_archive_rewarded
    then update_rows (is_old_reward now (or_default g.rewarded_archive_days 90)) (archive_row now)
        rs
    else rs

unfoldable pub archive_expired : ReferralSettings → ℕ → List Referral → List Referral
archive_expired g now rs =
    if g.auto_archive_expired
    then update_rows (is_old_expiry now (or_default g.expired_archive_days 30)) (archive_row now) rs
    else rs

unfoldable pub referral_cleanup : ℕ → Program → Program
referral_cleanup now p = elim p.settings [
  | none ↦ p
  | some g ↦ record p {
    referrals = archive_expired g now (archive_rewarded g now (expire_pending g now p.referrals));
  }
]
