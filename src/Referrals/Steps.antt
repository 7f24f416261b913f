-- ===== src/Referrals/Steps.antt =====
-- app/tasks/process_referral_rewards.py: what one referral changes of those that wait and of the rewards.
use vodum.Common.{
  subst, ℕ, ◌+◌, ◌==◌, ◌≤◌, ◌≡◌, refl, Bool, true, false, ◌&&◌, none, List, [], ◌∷◌, ◌++◌, any,
  find_row, update_rows, count_rows, count_rows-append, if◌then◌else◌, arith, Bool-cases,
  Option-cases, inl, inr, ◌∙◌,
}
use vodum.State.{Result-cases}
use vodum.Communications.{
  TriggerEvent, Template, select_comm_template_for_user, schedule_template_notification,
}
use vodum.Subscriptions.{Expiration, same_status}
use vodum.Subscriptions.Tables.{Member, Contact, Office, Formats}
use vodum.Subscriptions.Update.{is_member, update_user_expiration, comm_contexts}
use vodum.Referrals.{
  ReferralError, Referral, ReferralSettings, Program, Due, Event, EventType, is_referral,
  is_pending, log_event, update_referral, base_day, reward_row, fail_row, first_contact,
  reward_notification, subscription_of, queue_reward, notify_reward, grant_reward, reward_referrer,
  process_referral,
}

abbrev pub waits : ℕ → Referral → Bool
waits i r = is_referral i r && is_pending r.status

abbrev pub is_grant : ℕ → Event → Bool
is_grant i e =
    e.referral_id == i && elim e.event_type [ EventType.reward_granted ↦ true | _ ↦ false ]

abbrev pub waiting : ℕ → Program → ℕ
waiting i p = count_rows (waits i) p.referrals

abbrev pub granted : ℕ → Program → ℕ
granted i p = count_rows (is_grant i) p.events

-- A referral that waits was not rewarded, and no referral was rewarded twice.
abbrev pub IsOnce : Program → Type 0
IsOnce p = (i : ℕ) → count_rows (is_grant i) p.events + count_rows (waits i) p.referrals ≤ 1

pub record IsSame (p p' : Program) : Type 0 where
  pub waits_same : (i : ℕ) → waiting i p' ≡ waiting i p
  pub grants_same : (i : ℕ) → granted i p' ≡ granted i p

waits-fail :
    (i k : ℕ) (e : ReferralError) (rs : List Referral)
    → count_rows (waits i) (update_rows (is_referral k) (fail_row e) rs) ≡ count_rows (waits i) rs
waits-fail i k e [] = refl
waits-fail i k e (r ∷ rs) = ground (arith, waits-fail i k e rs)

fail-IsSame :
    (k : ℕ) (e : ReferralError) (p : Program) → IsSame p (update_referral k (fail_row e) p)
fail-IsSame k e p = record {
  waits_same = λ i. waits-fail i k e p.referrals;
  grants_same = λ i. refl;
}

queue_reward-IsSame :
    (f : Formats) (r : Referral) (after : ℕ) (c : Contact) (t : Template) (p : Program)
    → IsSame p (queue_reward f r after c t p).1
unfolding queue_reward log_event
queue_reward-IsSame f r after c t p =
    elim (Result-cases
      (schedule_template_notification (reward_notification f r after c t) p.office.outbox).0) [
        | inl (added, e) ↦
            rw (queue_reward, e) (record { waits_same = λ i. refl; grants_same = λ i. refl })
        | inr (failure, e) ↦
            rw (queue_reward, e) (record { waits_same = λ i. refl; grants_same = λ i. refl })
      ]

pub notify_reward-IsSame :
    (f : Formats) (r : Referral) (after : ℕ) (p : Program) → IsSame p (notify_reward f r after p).1
unfolding notify_reward
notify_reward-IsSame f r after p =
    elim (Option-cases (first_contact (comm_contexts r.referrer_user_id p.office.contacts))) [
      | inl unknown ↦ rw (notify_reward, unknown) (fail-IsSame r.id ReferralError.no_context p)
      | inr (c, known) ↦
          elim (Option-cases (
            select_comm_template_for_user
              (record {
                event = TriggerEvent.referral_reward;
                provider = c.server_type;
                subscription = subscription_of r.referrer_user_id p.office;
                direction = none;
              })
              p.office.templates)) [
                | inl missing ↦
                    rw (notify_reward, known, missing)
                      (fail-IsSame r.id ReferralError.no_template p)
                | inr (t, chosen) ↦
                    rw (notify_reward, known, chosen) (queue_reward-IsSame f r after c t p)
              ]
    ]

waits-reward :
    (i k now after : ℕ) (before : Expiration) (rs : List Referral)
    → count_rows (waits i) (update_rows (is_referral k) (reward_row now before after) rs)
      ≡ (if k == i then 0 else count_rows (waits i) rs)
waits-reward i k now after before [] = ground arith
waits-reward i k now after before (r ∷ rs) = ground (arith, waits-reward i k now after before rs)

-- A step on one referral: its reward takes the place of its waiting.
pub record IsStep (k : ℕ) (p p' : Program) : Type 0 where
  pub total : (i : ℕ) → granted i p' + waiting i p' ≤ granted i p + waiting i p
  pub others : (i : ℕ) → (k == i) ≡ false → waiting i p' ≡ waiting i p

IsSame-IsStep : (k : ℕ) (p p' : Program) → IsSame p p' → IsStep k p p'
IsSame-IsStep k p p' h = record {
  total = λ i. omega (arith, h.waits_same i, h.grants_same i);
  others = λ i e. h.waits_same i;
}

-- The event that `grant_reward` writes.
abbrev pub recorded : ℕ → Referral → Expiration → ℕ → Program → Program
recorded now r before after p = record (update_referral r.id (reward_row now before after) p) {
  events = p.events ++ record { referral_id = r.id; event_type = EventType.reward_granted } ∷ [];
}

recorded-IsStep :
    (now : ℕ) (r : Referral) (before : Expiration) (after : ℕ) (p : Program)
    → 1 ≤ waiting r.id p
    → IsStep r.id p (recorded now r before after p)
recorded-IsStep now r before after p h = record {
  total = λ i. elim (Bool-cases (r.id == i)) [
    | inl same ↦
        let q : r.id ≡ i = ground arith in
        let one : 1 ≤ waiting i p = subst (λ j. 1 ≤ waiting j p) q h in
        ground (
          arith,
          one,
          count_rows-append (is_grant i) p.events
              (record { referral_id = r.id; event_type = EventType.reward_granted } ∷ []),
          waits-reward i r.id now after before p.referrals,
        )
    | inr other ↦ ground (
      arith,
      count_rows-append (is_grant i) p.events
          (record { referral_id = r.id; event_type = EventType.reward_granted } ∷ []),
      waits-reward i r.id now after before p.referrals,
    )
  ];
  others = λ i e. waits-reward i r.id now after before p.referrals ∙ ground (arith, e);
}

after-IsStep : (k : ℕ) (p q r : Program) → IsStep k p q → IsSame q r → IsStep k p r
after-IsStep k p q r h s = record {
  total = λ i. omega (arith, h.total i, s.waits_same i, s.grants_same i);
  others = λ i e. s.waits_same i ∙ h.others i e;
}

before-IsStep : (k : ℕ) (p q r : Program) → IsSame p q → IsStep k q r → IsStep k p r
before-IsStep k p q r s h = record {
  total = λ i. omega (arith, h.total i, s.waits_same i, s.grants_same i);
  others = λ i e. h.others i e ∙ s.waits_same i;
}

grant_reward-IsStep :
    (f : Formats) (g : ReferralSettings) (now : ℕ) (r : Referral) (before : Expiration) (after : ℕ)
    (p : Program)
    → 1 ≤ waiting r.id p
    → IsStep r.id p (grant_reward f g now r before after p).1
unfolding grant_reward log_event
grant_reward-IsStep f g now r before after p h =
    let step = recorded-IsStep now r before after p h in
    elim (Bool-cases g.auto_notify_reward) [
      | inl asked ↦
          rw (grant_reward, asked)
            (after-IsStep r.id p (recorded now r before after p) _ step
              (notify_reward-IsSame f r after (recorded now r before after p)))
      | inr quiet ↦ rw (grant_reward, quiet) step
    ]

-- What happens to the users leaves the referrals alone.
abbrev with_office : Program → Office → Program
with_office p o = record p { office = o }

office-IsSame : (p : Program) (o : Office) → IsSame p (with_office p o)
office-IsSame p o = record { waits_same = λ i. refl; grants_same = λ i. refl }

reward_referrer-IsStep :
    (f : Formats) (g : ReferralSettings) (today now : ℕ) (r : Referral) (m : Member) (p : Program)
    → 1 ≤ waiting r.id p
    → IsStep r.id p (reward_referrer f g today now r m p).1
unfolding reward_referrer
reward_referrer-IsStep f g today now r m p h =
    let after = base_day m.expiration_date today + r.reward_days_snapshot in
    let moved = update_user_expiration f today now r.referrer_user_id after p.office in
    let p' = with_office p moved.1 in
    let same = office-IsSame p moved.1 in
    elim (Result-cases moved.0) [
      | inr (failure, e) ↦ rw (reward_referrer, e) (IsSame-IsStep r.id p p' same)
      | inl (done, e) ↦ elim (Bool-cases done) [
        | inl y ↦
            rw (reward_referrer, e, y)
              (before-IsStep r.id p p' _ same
                (grant_reward-IsStep f g now r m.expiration_date after p' h))
        | inr n ↦
            rw (reward_referrer, e, n)
              (before-IsStep r.id p p' _ same
                (IsSame-IsStep r.id p' _ (fail-IsSame r.id ReferralError.update_failed p')))
      ]
    ]

pub process_referral-IsStep :
    (f : Formats) (g : ReferralSettings) (today now : ℕ) (d : Due) (p : Program)
    → 1 ≤ waiting d.referral.id p
    → IsStep d.referral.id p (process_referral f g today now d p).1
unfolding process_referral
process_referral-IsStep f g today now d p h =
    let k = d.referral.id in
    elim (Bool-cases (any (same_status d.referred_status) g.eligible_statuses)) [
      | inr n ↦
          rw (process_referral, n)
            (IsSame-IsStep k p _ (fail-IsSame k (ReferralError.not_eligible d.referred_status) p))
      | inl y ↦
          elim (Option-cases (find_row (is_member d.referral.referrer_user_id) p.office.members)) [
            | inl absent ↦
                rw (process_referral, y, absent)
                  (IsSame-IsStep k p _ (fail-IsSame k ReferralError.not_found p))
            | inr (m, found) ↦
                rw (process_referral, y, found)
                  (reward_referrer-IsStep f g today now d.referral m p h)
          ]
    ]
