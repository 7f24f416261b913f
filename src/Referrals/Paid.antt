-- ===== src/Referrals/Paid.antt =====
-- app/tasks/process_referral_rewards.py: the days of a referrer and the entry in the log that tells of them.
use vodum.Common.{
  ℕ, ◌+◌, ◌≡◌, refl, Bool, true, List, [], ◌∷◌, any, find_row, update_rows, count_rows-append,
  if◌then◌else◌, arith, Bool-cases, Option-cases, some, inl, inr, ◌∙◌, ◌⊎◌, leb,
}
use vodum.Tasks.{Error}
use vodum.State.{Result, Result-cases, ok, raised}
use vodum.Subscriptions.{Expiration, same_status}
use vodum.Subscriptions.Tables.{Member, Office, Formats, UserPolicy}
use vodum.Subscriptions.Update.{
  is_member, update_user_expiration, settle_rest, settle_update, new_status_of, status_or,
  set_expiration, remove_expired_subscription_policy_for_user, is_reactivated, reactivate,
}
use vodum.Referrals.{
  Referral, ReferralSettings, Program, Due, Event, EventType, base_day, grant_reward,
  reward_referrer, process_referral, log_event,
}
use vodum.Referrals.Steps.{granted, is_grant, notify_reward-IsSame, recorded}

-- What one referral does to the expiries of the users: nothing, or its entry is logged too, or the
-- change of the date raised.
abbrev pub IsPaid : Formats → ReferralSettings → ℕ → ℕ → Due → Program → Type 0
IsPaid f g today now d p =
    let q = (process_referral f g today now d p).1 in
    (q.office.members ≡ p.office.members)
    ⊎ ((granted d.referral.id q ≡ granted d.referral.id p + 1)
        ⊎ ((day : ℕ) × ((e : Error) × ((update_user_expiration f today now
                  d.referral.referrer_user_id day p.office).0
                ≡ raised e))))

settle_rest-done :
    (f : Formats) (today new : ℕ) (m : Member) (r : Result (Unit {0})) (o : Office) (done : Bool)
    → (settle_rest f today new m (r, o)).0 ≡ ok done
    → done ≡ true
settle_rest-done f today new m (raised e) o done h = absurd (cc)
settle_rest-done f today new m (ok _) o done h =
    let removed : Result ℕ × List UserPolicy =
      if leb today new
      then remove_expired_subscription_policy_for_user m.id o.policies
      else (ok 0, o.policies) in
    elim (Result-cases removed.0) [
      | inr (failure, g) ↦ absurd (let k = rw (settle_rest, g) at h in cc)
      | inl (n, g) ↦ let k = rw (settle_rest, g) at h in cc
    ]

update-done :
    (f : Formats) (today now user new : ℕ) (m : Member) (o : Office) (done : Bool)
    → find_row (is_member user) o.members ≡ some m
    → (update_user_expiration f today now user new o).0 ≡ ok done
    → done ≡ true
unfolding update_user_expiration settle_update
update-done f today now user new m o done found h =
    let status = new_status_of o.delays today new in
    let o' = record o {
      members = update_rows (is_member user) (set_expiration now new status) o.members;
    } in
    let r : Result (Unit {0}) × Office =
      if is_reactivated m.status (status_or status m.status) new today
      then reactivate f m.id m.status (status_or status m.status) o'
      else (ok tt, o') in
    settle_rest-done f today new m r.0 r.1 done (rw (update_user_expiration, found) at h)

grant_reward-granted :
    (f : Formats) (g : ReferralSettings) (now : ℕ) (r : Referral) (before : Expiration) (after : ℕ)
    (p : Program)
    → granted r.id (grant_reward f g now r before after p).1 ≡ granted r.id p + 1
unfolding grant_reward log_event
grant_reward-granted f g now r before after p =
    let entry : List Event =
      record { referral_id = r.id; event_type = EventType.reward_granted } ∷ [] in
    let one : granted r.id (recorded now r before after p) ≡ granted r.id p + 1 =
      ground (arith, count_rows-append (is_grant r.id) p.events entry) in
    elim (Bool-cases g.auto_notify_reward) [
      | inl asked ↦
          rw (grant_reward, asked)
            ((notify_reward-IsSame f r after (recorded now r before after p)).grants_same r.id
              ∙ one)
      | inr quiet ↦ rw (grant_reward, quiet) one
    ]

pub process_referral-IsPaid :
    (f : Formats) (g : ReferralSettings) (today now : ℕ) (d : Due) (p : Program)
    → IsPaid f g today now d p
unfolding process_referral reward_referrer
process_referral-IsPaid f g today now d p =
    let r = d.referral in
    elim (Bool-cases (any (same_status d.referred_status) g.eligible_statuses)) [
      | inr n ↦ inl (rw (process_referral, n) refl)
      | inl y ↦ elim (Option-cases (find_row (is_member r.referrer_user_id) p.office.members)) [
        | inl absent ↦ inl (rw (process_referral, y, absent) refl)
        | inr (m, found) ↦
            let after = base_day m.expiration_date today + r.reward_days_snapshot in
            let moved = update_user_expiration f today now r.referrer_user_id after p.office in
            elim (Result-cases moved.0) [
              | inr (failure, e) ↦ inr (inr (after, (failure, e)))
              | inl (done, e) ↦
                  let yes =
                    update-done f today now r.referrer_user_id after m p.office done found e in
                  inr (
                    inl (
                      rw (process_referral, reward_referrer, y, found, e, yes)
                        (grant_reward-granted f g now r m.expiration_date after
                          (record p { office = moved.1 }))))
            ]
      ]
    ]
