-- ===== src/Referrals/Lost.antt =====
-- app/tasks/process_referral_rewards.py and referral_cleanup.py: a run that ends at a notification.
use vodum.Common.{
  ℕ, ◌+◌, ◌==◌, ◌≤◌, ◌≡◌, refl, Bool, true, false, not, ◌&&◌, none, some, List, [], ◌∷◌, any,
  find_row, update_rows, count_rows, arith, Bool-cases, inl, inr, ◌∙◌,
}
use vodum.Tasks.{Error, db_error}
use vodum.State.{Result-cases, ok, raised}
use vodum.Communications.{
  TriggerEvent, Template, select_comm_template_for_user, schedule_template_notification,
}
use vodum.Subscriptions.{Expiration, same_status}
use vodum.Subscriptions.Tables.{Member, Contact, Office, Formats}
use vodum.Subscriptions.Update.{is_member, update_user_expiration, comm_contexts}
use vodum.Referrals.{
  ReferralStatus, Referral, ReferralSettings, Program, Due, is_referral, log_event, base_day,
  reward_row, first_contact, reward_notification, subscription_of, queue_reward, notify_reward,
  grant_reward, reward_referrer, process_referral, process_referrals, is_overdue, expire_row,
  archive_row, expire_pending, archive_rewarded, archive_expired, referral_cleanup,
}

-- The CHECK of the events refuses what is written after a notification is queued.
queue_reward_raises :
    (f : Formats) (r : Referral) (after : ℕ) (c : Contact) (t : Template) (p : Program)
    → ((e : Error) × ((queue_reward f r after c t p).0 ≡ raised e))
      × ((queue_reward f r after c t p).1.referrals ≡ p.referrals)
      × ((queue_reward f r after c t p).1.settings ≡ p.settings)
unfolding queue_reward log_event
queue_reward_raises f r after c t p =
    elim (Result-cases
      (schedule_template_notification (reward_notification f r after c t) p.office.outbox).0) [
        | inl (added, e) ↦ rw (queue_reward, e) ((db_error, refl), refl, refl)
        | inr (failure, e) ↦ rw (queue_reward, e) ((failure, refl), refl, refl)
      ]

-- There is a contact and a template for the reward, and the settings ask to notify.
pub record IsNotified (g : ReferralSettings) (r : Referral) (o : Office) : Type 0 where
  pub contact : Contact
  pub template : Template
  pub asked : g.auto_notify_reward ≡ true
  pub reached : first_contact (comm_contexts r.referrer_user_id o.contacts) ≡ some contact
  pub chosen :
      select_comm_template_for_user
        (record {
          event = TriggerEvent.referral_reward;
          provider = contact.server_type;
          subscription = subscription_of r.referrer_user_id o;
          direction = none;
        })
        o.templates
      ≡ some template

notify_reward_raises :
    (f : Formats) (g : ReferralSettings) (r : Referral) (after : ℕ) (p : Program)
    → IsNotified g r p.office
    → ((e : Error) × ((notify_reward f r after p).0 ≡ raised e))
      × ((notify_reward f r after p).1.referrals ≡ p.referrals)
      × ((notify_reward f r after p).1.settings ≡ p.settings)
unfolding notify_reward
notify_reward_raises f g r after p h =
    rw (notify_reward, h.reached, h.chosen) (queue_reward_raises f r after h.contact h.template p)

grant_reward_raises :
    (f : Formats) (g : ReferralSettings) (now : ℕ) (r : Referral) (before : Expiration) (after : ℕ)
    (p : Program)
    → IsNotified g r p.office
    → let run = grant_reward f g now r before after p in
      ((e : Error) × (run.0 ≡ raised e))
      × (run.1.referrals ≡ update_rows (is_referral r.id) (reward_row now before after) p.referrals)
      × (run.1.settings ≡ p.settings)
unfolding grant_reward log_event
grant_reward_raises f g now r before after p h =
    rw (grant_reward, h.asked)
      (notify_reward_raises f g r after _ (record {
        contact = h.contact;
        template = h.template;
        asked = h.asked;
        reached = h.reached;
        chosen = h.chosen;
      }))

-- The referral is eligible, its referrer is there and gets the days, and is notified.
pub record IsGranted (f : Formats) (g : ReferralSettings) (today now : ℕ) (d : Due) (p : Program)
    : Type 0 where
  pub referrer : Member
  pub eligible : any (same_status d.referred_status) g.eligible_statuses ≡ true
  pub found : find_row (is_member d.referral.referrer_user_id) p.office.members ≡ some referrer
  pub moved :
      (update_user_expiration f today now d.referral.referrer_user_id
        (base_day referrer.expiration_date today + d.referral.reward_days_snapshot)
        p.office).0
      ≡ ok true
  pub notified :
      IsNotified g d.referral
        (update_user_expiration f today now d.referral.referrer_user_id
          (base_day referrer.expiration_date today + d.referral.reward_days_snapshot)
          p.office).1

abbrev pub granted_row :
    {f : Formats} {g : ReferralSettings} {today now : ℕ} {d : Due} {p : Program}
    → IsGranted f g today now d p
    → Referral
    → Referral
granted_row {f} {g} {today} {now} {d} {p} h =
    reward_row now h.referrer.expiration_date
      (base_day h.referrer.expiration_date today + d.referral.reward_days_snapshot)

process_referral_raises :
    (f : Formats) (g : ReferralSettings) (today now : ℕ) (d : Due) (p : Program)
    (h : IsGranted f g today now d p)
    → let run = process_referral f g today now d p in
      ((e : Error) × (run.0 ≡ raised e))
      × (run.1.referrals ≡ update_rows (is_referral d.referral.id) (granted_row h) p.referrals)
      × (run.1.settings ≡ p.settings)
unfolding process_referral reward_referrer
process_referral_raises f g today now d p h =
    rw (process_referral, h.eligible, h.found, reward_referrer, h.moved)
      (grant_reward_raises f g now d.referral h.referrer.expiration_date _ _ h.notified)

process_referrals_raises :
    (f : Formats) (g : ReferralSettings) (today now : ℕ) (d : Due) (ds : List Due) (p : Program)
    (e : Error)
    → (process_referral f g today now d p).0 ≡ raised e
    → process_referrals f g today now (d ∷ ds) p
      ≡ (raised e, (process_referral f g today now d p).1)
unfolding process_referrals
process_referrals_raises f g today now d ds p e h = rw (process_referrals, h) refl

-- Expired at this time.
abbrev pub is_given_up : ℕ → Referral → Bool
is_given_up now r = elim r.status [
  | ReferralStatus.expired ↦ elim r.expired_at [ none ↦ false | some t ↦ t == now ]
  | _ ↦ false
]

given_up-expired :
    (now : ℕ) (rs : List Referral)
    → count_rows (is_overdue now) rs
      ≤ count_rows (is_given_up now) (update_rows (is_overdue now) (expire_row now) rs)
given_up-expired now [] = omega arith
given_up-expired now (r ∷ rs) = ground (arith, given_up-expired now rs)

-- An update of other rows leaves at least as many.
count-others_ge :
    (q p : Referral → Bool) (f : Referral → Referral)
    → ((r : Referral) → q r ≡ true → p r ≡ false)
    → (rs : List Referral) → count_rows q rs ≤ count_rows q (update_rows p f rs)
count-others_ge q p f apart [] = omega arith
count-others_ge q p f apart (r ∷ rs) = ground (arith, apart r, count-others_ge q p f apart rs)

rewarded_ge :
    (g : ReferralSettings) (now : ℕ) (rs : List Referral)
    → count_rows (is_given_up now) rs ≤ count_rows (is_given_up now) (archive_rewarded g now rs)
unfolding archive_rewarded
rewarded_ge g now rs = elim (Bool-cases g.auto_archive_rewarded) [
  | inl on ↦ rw on (count-others_ge (is_given_up now) _ (archive_row now) (λ r h. ground arith) rs)
  | inr off ↦ rw off (omega arith)
]

expired_ge :
    (g : ReferralSettings) (now : ℕ) (rs : List Referral)
    → count_rows (is_given_up now) rs ≤ count_rows (is_given_up now) (archive_expired g now rs)
unfolding archive_expired
expired_ge g now rs = elim (Bool-cases g.auto_archive_expired) [
  | inl on ↦ rw on (count-others_ge (is_given_up now) _ (archive_row now) (λ r h. ground arith) rs)
  | inr off ↦ rw off (omega arith)
]

cleanup-gives_up :
    (g : ReferralSettings) (now : ℕ) (rs : List Referral)
    → g.auto_expire_pending ≡ true
    → count_rows (is_overdue now) rs
      ≤ count_rows
          (is_given_up now)
          (archive_expired g now (archive_rewarded g now (expire_pending g now rs)))
unfolding expire_pending
cleanup-gives_up g now rs on =
    let first : count_rows (is_overdue now) rs
        ≤ count_rows (is_given_up now) (expire_pending g now rs) =
      rw (expire_pending, on) (given_up-expired now rs) in
    omega (
      arith,
      first,
      rewarded_ge g now (expire_pending g now rs),
      expired_ge g now (archive_rewarded g now (expire_pending g now rs)),
    )

reward-leaves :
    (i now : ℕ) (f : Referral → Referral) (rs : List Referral)
    → count_rows (λ r. not (is_referral i r) && is_overdue now r) rs
      ≤ count_rows (is_overdue now) (update_rows (is_referral i) f rs)
reward-leaves i now f [] = omega arith
reward-leaves i now f (r ∷ rs) = ground (arith, reward-leaves i now f rs)

referral_cleanup_rows :
    (g : ReferralSettings) (now : ℕ) (p : Program)
    → p.settings ≡ some g
    → (referral_cleanup now p).referrals
      ≡ archive_expired g now (archive_rewarded g now (expire_pending g now p.referrals))
unfolding referral_cleanup
referral_cleanup_rows g now p e = rw (referral_cleanup, e) refl

-- If the first referral of a run is granted and its referrer is to be notified, the run raises there:
-- the reward is recorded, but no other referral is looked at; and if the settings say to expire what is
-- pending, the next cleanup expires those that are overdue by then.
pub notified_reward_aborts :
    (f : Formats) (g : ReferralSettings) (today now later : ℕ) (d : Due) (ds : List Due)
    (p : Program) (h : IsGranted f g today now d p)
    → p.settings ≡ some g
    → g.auto_expire_pending ≡ true
    → let run = process_referrals f g today now (d ∷ ds) p in
      ((e : Error) × (run.0 ≡ raised e))
      × (run.1.referrals ≡ update_rows (is_referral d.referral.id) (granted_row h) p.referrals)
      × (count_rows (λ r. not (is_referral d.referral.id r) && is_overdue later r) p.referrals
          ≤ count_rows (is_given_up later) (referral_cleanup later run.1).referrals)
notified_reward_aborts f g today now later d ds p h set on =
    let ((e, raises), referrals, settings) = process_referral_raises f g today now d p h in
    rw (process_referrals_raises f g today now d ds p e raises) (
      (e, refl),
      referrals,
      rw
          (
            referral_cleanup_rows g later (process_referral f g today now d p).1 (settings ∙ set),
            referrals,
          )
          (omega (
            arith,
            reward-leaves d.referral.id later (granted_row h) p.referrals,
            cleanup-gives_up g later
                (update_rows (is_referral d.referral.id) (granted_row h) p.referrals) on,
          )),
    )
