-- ===== src/Subscriptions/Update.antt =====
-- app/api/subscriptions.py, `update_user_expiration`: a new date of expiry for one user. The new date is
-- a day; SQLite does not fail here, and the tasks that are woken run later.
use vodum.Common.{
  ℕ, ◌+◌, ◌==◌, Bool, true, false, not, ◌&&◌, ◌||◌, Option, none, some, List, [], ◌∷◌, ltb, leb,
  any, where_rows, find_row, update_rows, sort_by, if◌then◌else◌,
}
use Prim.Native.String.{◌++◌ as str_append}
use vodum.Tasks.{runtime_error}
use vodum.State.{Provider, Result, ok, raised}
use vodum.Media.{
  MediaJob, JobAction, JobStatus, Jobs, plex, same_provider, is_access, is_active, equals,
  superseded, insert_plex_media_job,
}
use vodum.Communications.{
  TriggerEvent, Direction, Template, Notification, select_comm_template_for_user,
  schedule_template_notification,
}
use vodum.Subscriptions.Status.{UserStatus, Expiration, Delays, same_status, compute_status}
use vodum.Subscriptions.Expiry.{SystemRule}
use vodum.Subscriptions.Tables.{Member, Contact, UserPolicy, Office, Formats}
mod Access
mod Notice
unfoldable pub use Access.*
unfoldable pub use Notice.*

-- `date.fromisoformat(row["expiration_date"])`, or today.
abbrev pub old_expiration : Expiration → ℕ → ℕ
old_expiration (Expiration.day d) today = d
old_expiration _ today = today

abbrev pub new_status_of : Option Delays → ℕ → ℕ → Option UserStatus
new_status_of none today new = none
new_status_of (some delays) today new = compute_status (Expiration.day new) today delays

abbrev pub set_expiration : ℕ → ℕ → Option UserStatus → Member → Member
set_expiration now new none m = record m { expiration_date = Expiration.day new }
set_expiration now new (some s) m =
    if same_status s m.status then record m { expiration_date = Expiration.day new } else record m {
      expiration_date = Expiration.day new;
      status = s;
      last_status = m.status;
      status_changed_at = some now;
    }

abbrev pub status_or : Option UserStatus → UserStatus → UserStatus
status_or none old = old
status_or (some s) old = s

abbrev pub is_expired : UserStatus → Bool
is_expired s = same_status s UserStatus.expired

-- The jobs of a user who was expired and is no more.
unfoldable pub reactivate :
    Formats → ℕ → UserStatus → UserStatus → Office → Result (Unit {0}) × Office
reactivate f user old effective o =
    let queued =
      queue_syncs f user old effective [] (plex_contacts user o.contacts)
        (cleanup_pending_plex_jobs_for_user user o.jobs) in
    elim queued.0 [
      | raised e ↦ (raised e, record o { jobs = queued.1 })
      | ok n ↦ (
        ok tt,
        record o {
          jobs = queued.1;
          woken = if ltb 0 n then "apply_plex_access_updates" ∷ o.woken else o.woken;
        },
      )
    ]

abbrev pub is_reactivated : UserStatus → UserStatus → ℕ → ℕ → Bool
is_reactivated old effective new today =
    is_expired old && (not (is_expired effective) || leb today new)

-- After the jobs of a user who comes back.
abbrev pub settle_rest :
    Formats → ℕ → ℕ → Member → Result (Unit {0}) × Office → Result Bool × Office
settle_rest f today new m jobs =
    let removed : Result ℕ × List UserPolicy =
      if leb today new
      then remove_expired_subscription_policy_for_user m.id jobs.1.policies
      else (ok 0, jobs.1.policies) in
    let cleaned = record jobs.1 { policies = removed.1 } in
    elim jobs.0 [
      | raised e ↦ (raised e, jobs.1)
      | ok _ ↦ elim removed.0 [
        | raised e ↦ (raised e, cleaned)
        | ok _ ↦ (
          ok true,
          notify_change f m.id m.subscription_template_id (old_expiration m.expiration_date today)
              new cleaned,
        )
      ]
    ]

-- After the row is written.
unfoldable pub settle_update : Formats → ℕ → ℕ → Member → UserStatus → Office → Result Bool × Office
settle_update f today new m effective o = settle_rest f today new m (
    if is_reactivated m.status effective new today
    then reactivate f m.id m.status effective o
    else (ok tt, o))

-- False is returned for a user who is not there.
unfoldable pub update_user_expiration : Formats → ℕ → ℕ → ℕ → ℕ → Office → Result Bool × Office
update_user_expiration f today now user new o = elim (find_row (is_member user) o.members) [
  | none ↦ (ok false, o)
  | some m ↦
      let status = new_status_of o.delays today new in
      settle_update f today new m (status_or status m.status) (record o {
        members = update_rows (is_member user) (set_expiration now new status) o.members;
      })
]
