-- ===== src/Referrals/Rewards.antt =====
-- app/tasks/process_referral_rewards.py: the days that a referrer gets for a referral.
use Prim.Native.Nat.{◌/◌}
use Prim.Native.String.{◌++◌ as str_append}
use vodum.Common.{
  ℕ, ◌+◌, ◌==◌, Bool, true, false, not, ◌&&◌, Option, none, some, List, [], ◌∷◌, ltb, leb, any,
  where_rows, find_row, sort_by, if◌then◌else◌, is_some,
}
use vodum.State.{Result, ok, raised}
use vodum.Communications.{
  TriggerEvent, Template, Notification, select_comm_template_for_user,
  schedule_template_notification,
}
use vodum.Subscriptions.{UserStatus, Expiration, same_status, parse_iso_date}
use vodum.Subscriptions.Tables.{Member, Contact, Office, Formats}
use vodum.Subscriptions.Update.{is_member, update_user_expiration, comm_contexts}
use vodum.Referrals.Tables.{
  rewarded, not_eligible, not_found, update_failed, no_context, no_template, Referral,
  reward_granted, notification_queued, ReferralSettings, Program, is_pending, log_event,
  update_referral, fail_row,
}

-- `WHERE r.status = 'pending' AND … date(r.qualification_due_at) <= date(?)`, with both users there.
unfoldable pub is_due_reward : ℕ → Office → Referral → Bool
is_due_reward today o r =
    is_pending r.status
    && not (is_some r.reward_granted_at)
    && elim r.qualification_due_at [ none ↦ false | some t ↦ leb (t / 86400) today ]
    && is_some (find_row (is_member r.referred_user_id) o.members)
    && is_some (find_row (is_member r.referrer_user_id) o.members)

abbrev pub due_or_zero : Referral → ℕ
due_or_zero r = elim r.qualification_due_at [ none ↦ 0 | some t ↦ t ]

abbrev pub is_due_before : Referral → Referral → Bool
is_due_before a b =
    if due_or_zero a == due_or_zero b then leb a.id b.id else ltb (due_or_zero a) (due_or_zero b)

-- A row of the query: the referral and the status that the referred user had then.
pub record Due : Type 0 where
  pub referral : Referral
  pub referred_status : UserStatus

abbrev pub status_of : Option Member → UserStatus
status_of none = UserStatus.unset
status_of (some m) = m.status

abbrev pub join_rows : Office → List Referral → List Due
join_rows o [] = []
join_rows o (r ∷ rs) =
    record {
      referral = r;
      referred_status = status_of (find_row (is_member r.referred_user_id) o.members);
    }
    ∷ join_rows o rs

unfoldable pub due_rewards : ℕ → Program → List Due
due_rewards today p =
    join_rows p.office
      (sort_by is_due_before (where_rows (is_due_reward today p.office) p.referrals))

-- The day from which the reward counts: that of the expiry, if it is not past.
unfoldable pub base_day : Expiration → ℕ → ℕ
base_day e today = elim (parse_iso_date e) [
  | none ↦ today
  | some d ↦ if ltb d today then today else d
]

abbrev pub reward_row : ℕ → Expiration → ℕ → Referral → Referral
reward_row now before after r = record r {
  status = rewarded;
  qualified_at = elim r.qualified_at [ none ↦ some now | some t ↦ some t ];
  reward_granted_at = some now;
  reward_expiration_before = before;
  reward_expiration_after = some after;
  last_error = none;
}

abbrev pub first_contact : List Contact → Option Contact
first_contact [] = none
first_contact (c ∷ cs) = some c

abbrev pub reward_notification : Formats → Referral → ℕ → Contact → Template → Notification
reward_notification f r after c t =
    let who = str_append (f.digits t.id) (str_append ":user:" (f.digits r.referrer_user_id)) in
    record {
      template_id = t.id;
      user_id = r.referrer_user_id;
      provider = c.server_type;
      server_id = some c.server_id;
      delay = none;
      payload = f.json (r.id ∷ r.referred_user_id ∷ r.reward_days_snapshot ∷ after ∷ []);
      dedupe_key = some (
          str_append (str_append "referral_reward:" (f.digits r.id)) (str_append ":template:" who));
      max_attempts = 10;
    }

abbrev pub subscription_of : ℕ → Office → Option ℕ
subscription_of user o = elim (find_row (is_member user) o.members) [
  | none ↦ none
  | some m ↦ m.subscription_template_id
]

unfoldable pub queue_reward :
    Formats → Referral → ℕ → Contact → Template → Program → Result (Unit {0}) × Program
queue_reward f r after c t p =
    let queued =
      schedule_template_notification (reward_notification f r after c t) p.office.outbox in
    let p' = record p { office = record p.office { outbox = queued.1 } } in
    elim queued.0 [ raised e ↦ (raised e, p') | ok added ↦ log_event r.id notification_queued p' ]

unfoldable pub notify_reward : Formats → Referral → ℕ → Program → Result (Unit {0}) × Program
notify_reward f r after p =
    elim (first_contact (comm_contexts r.referrer_user_id p.office.contacts)) [
      | none ↦ (ok tt, update_referral r.id (fail_row no_context) p)
      | some c ↦
          elim (select_comm_template_for_user
            (record {
              event = TriggerEvent.referral_reward;
              provider = c.server_type;
              subscription = subscription_of r.referrer_user_id p.office;
              direction = none;
            })
            p.office.templates) [
              | none ↦ (ok tt, update_referral r.id (fail_row no_template) p)
              | some t ↦ queue_reward f r after c t p
            ]
    ]

-- After the expiry of the referrer is moved.
unfoldable pub grant_reward :
    Formats
    → ReferralSettings
    → ℕ
    → Referral
    → Expiration
    → ℕ
    → Program
    → Result (Unit {0}) × Program
grant_reward f g now r before after p =
    let logged =
      log_event r.id reward_granted (update_referral r.id (reward_row now before after) p) in
    elim logged.0 [
      | raised e ↦ (raised e, logged.1)
      | ok _ ↦ if g.auto_notify_reward then notify_reward f r after logged.1 else (ok tt, logged.1)
    ]

unfoldable pub reward_referrer :
    Formats → ReferralSettings → ℕ → ℕ → Referral → Member → Program → Result (Unit {0}) × Program
reward_referrer f g today now r m p =
    let after = base_day m.expiration_date today + r.reward_days_snapshot in
    let moved = update_user_expiration f today now r.referrer_user_id after p.office in
    let p' = record p { office = moved.1 } in
    elim moved.0 [
      | raised e ↦ (raised e, p')
      | ok false ↦ (ok tt, update_referral r.id (fail_row update_failed) p')
      | ok true ↦ grant_reward f g now r m.expiration_date after p'
    ]

-- The body of the loop.
unfoldable pub process_referral :
    Formats → ReferralSettings → ℕ → ℕ → Due → Program → Result (Unit {0}) × Program
process_referral f g today now d p =
    if not (any (same_status d.referred_status) g.eligible_statuses)
    then (ok tt, update_referral d.referral.id (fail_row (not_eligible d.referred_status)) p)
    else elim (find_row (is_member d.referral.referrer_user_id) p.office.members) [
      | none ↦ (ok tt, update_referral d.referral.id (fail_row not_found) p)
      | some m ↦ reward_referrer f g today now d.referral m p
    ]

unfoldable pub process_referrals :
    Formats → ReferralSettings → ℕ → ℕ → List Due → Program → Result (Unit {0}) × Program
process_referrals f g today now [] p = (ok tt, p)
process_referrals f g today now (d ∷ ds) p =
    let one = process_referral f g today now d p in
    let rest = process_referrals f g today now ds one.1 in
    elim one.0 [ raised e ↦ (raised e, one.1) | ok _ ↦ rest ]

unfoldable pub process_referral_rewards : Formats → ℕ → ℕ → Program → Result (Unit {0}) × Program
process_referral_rewards f today now p = elim p.settings [
  | none ↦ (ok tt, p)
  | some g ↦
      if g.enabled && g.reward_enabled
      then process_referrals f g today now (due_rewards today p) p
      else (ok tt, p)
]
