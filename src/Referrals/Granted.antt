-- ===== src/Referrals/Granted.antt =====
-- app/tasks/process_referral_rewards.py and referral_cleanup.py: each referral is rewarded once.
use vodum.Common.{
  subst, ℕ, ◌==◌, ◌≤◌, ◌≡◌, refl, Bool, true, false, ◌&&◌, Option, List, [], ◌∷◌, ◌++◌, where_rows,
  sort_by, update_rows, count_rows, count_rows-append, count_rows-sort_by, count_rows-update_le,
  if◌then◌else◌, arith, Bool-cases, Option-cases, inl, inr,
}
use vodum.State.{Result-cases}
use vodum.Subscriptions.Tables.{Office, Formats}
use vodum.Referrals.{
  Referral, ReferralSettings, Program, Due, is_referral, process_referral, process_referrals,
  process_referral_rewards, due_rewards, join_rows, is_due_reward, is_due_before, is_overdue,
  expire_row, archive_row, is_old_reward, is_old_expiry, or_default, expire_pending,
  archive_rewarded, archive_expired, referral_cleanup,
}
use vodum.Referrals.Paid.{IsPaid, process_referral-IsPaid}
use vodum.Referrals.Steps.{
  waits, is_grant, waiting, granted, IsOnce, IsStep, process_referral-IsStep,
}

abbrev is_due : ℕ → Due → Bool
is_due i d = d.referral.id == i

-- Each referral that is still to be looked at waits.
abbrev AllWait : List Due → Program → Type 0
AllWait ds p = (i : ℕ) → count_rows (is_due i) ds ≤ count_rows (waits i) p.referrals

step-IsOnce : (k : ℕ) (p p' : Program) → IsStep k p p' → IsOnce p → IsOnce p'
step-IsOnce k p p' h once i = omega (arith, h.total i, once i)

step-AllWait :
    (d : Due) (ds : List Due) (p p' : Program)
    → IsStep d.referral.id p p'
    → IsOnce p
    → AllWait (d ∷ ds) p
    → AllWait ds p'
step-AllWait d ds p p' h once wait i = elim (Bool-cases (d.referral.id == i)) [
  | inl same ↦ ground (arith, once i, wait i)
  | inr other ↦ ground (arith, h.others i other, wait i)
]

process_referrals-IsOnce :
    (f : Formats) (g : ReferralSettings) (today now : ℕ) (ds : List Due) (p : Program)
    → IsOnce p
    → AllWait ds p
    → IsOnce (process_referrals f g today now ds p).1
unfolding process_referrals
process_referrals-IsOnce f g today now [] p once wait = once
process_referrals-IsOnce f g today now (d ∷ ds) p once wait =
    let q = (process_referral f g today now d p).1 in
    let first : 1 ≤ waiting d.referral.id p = ground (arith, wait d.referral.id) in
    let step = process_referral-IsStep f g today now d p first in
    let once' = step-IsOnce d.referral.id p q step once in
    elim (Result-cases (process_referral f g today now d p).0) [
      | inl (done, e) ↦
          rw (process_referrals, e)
            (process_referrals-IsOnce f g today now ds q once'
              (step-AllWait d ds p q step once wait))
      | inr (failure, e) ↦ rw (process_referrals, e) once'
    ]

count-join :
    (i : ℕ) (o : Office) (rs : List Referral)
    → count_rows (is_due i) (join_rows o rs) ≡ count_rows (is_referral i) rs
count-join i o [] = refl
count-join i o (r ∷ rs) = ground (arith, count-join i o rs)

due-waits :
    (i today : ℕ) (o : Office) (rs : List Referral)
    → count_rows (is_referral i) (where_rows (is_due_reward today o) rs) ≤ count_rows (waits i) rs
unfolding is_due_reward
due-waits i today o [] = omega arith
due-waits i today o (r ∷ rs) = ground (arith, due-waits i today o rs)

due_rewards-AllWait : (today : ℕ) (p : Program) → AllWait (due_rewards today p) p
unfolding due_rewards
due_rewards-AllWait today p i =
    let rs = where_rows (is_due_reward today p.office) p.referrals in
    omega (
      arith,
      count-join i p.office (sort_by is_due_before rs),
      count_rows-sort_by (is_referral i) is_due_before rs,
      due-waits i today p.office p.referrals,
    )

process_referral_rewards-IsOnce :
    (f : Formats) (today now : ℕ) (p : Program)
    → IsOnce p
    → IsOnce (process_referral_rewards f today now p).1
unfolding process_referral_rewards
process_referral_rewards-IsOnce f today now p once = elim (Option-cases p.settings) [
  | inl e ↦ rw (process_referral_rewards, e) once
  | inr (g, e) ↦ elim (Bool-cases (g.enabled && g.reward_enabled)) [
    | inl y ↦
        rw (process_referral_rewards, e, y)
          (process_referrals-IsOnce f g today now (due_rewards today p) p once
            (due_rewards-AllWait today p))
    | inr n ↦ rw (process_referral_rewards, e, n) once
  ]
]

change_le :
    (i : ℕ) (on : Bool) (p : Referral → Bool) (f : Referral → Referral)
    → ((r : Referral) → waits i (f r) ≡ false)
    → (rs : List Referral)
    → count_rows (waits i) (if on then update_rows p f rs else rs) ≤ count_rows (waits i) rs
change_le i true p f out rs =
    count_rows-update_le (waits i) p f (λ r h e. absurd (let o = out r in cc)) rs
change_le i false p f out rs = omega arith

waits-cleanup :
    (i now : ℕ) (g : ReferralSettings) (rs : List Referral)
    → count_rows
        (waits i)
        (archive_expired g now (archive_rewarded g now (expire_pending g now rs)))
      ≤ count_rows (waits i) rs
unfolding archive_expired archive_rewarded expire_pending
waits-cleanup i now g rs =
    let one = expire_pending g now rs in
    let two = archive_rewarded g now one in
    omega (
      arith,
      change_le i g.auto_expire_pending (is_overdue now) (expire_row now) (λ r. ground arith) rs,
      change_le i g.auto_archive_rewarded
          (is_old_reward now (or_default g.rewarded_archive_days 90)) (archive_row now)
          (λ r. ground arith) one,
      change_le i g.auto_archive_expired (is_old_expiry now (or_default g.expired_archive_days 30))
          (archive_row now) (λ r. ground arith) two,
    )

referral_cleanup-IsOnce : (now : ℕ) (p : Program) → IsOnce p → IsOnce (referral_cleanup now p)
unfolding referral_cleanup
referral_cleanup-IsOnce now p once = elim (Option-cases p.settings) [
  | inl e ↦ rw (referral_cleanup, e) once
  | inr (g, e) ↦
      rw (referral_cleanup, e) (λ i. omega (arith, once i, waits-cleanup i now g p.referrals))
]

-- What the program does with the referrals: a run of either task, a new referral, and any change of
-- the settings and of what else the tasks read.
pub data Step (p : Program) : Program → Type 0 where
  rewards : (f : Formats) (today now : ℕ) → Step p (process_referral_rewards f today now p).1
  cleanup : (now : ℕ) → Step p (referral_cleanup now p)
  referred :
      (r : Referral)
      → count_rows (is_referral r.id) p.referrals ≡ 0
      → count_rows (is_grant r.id) p.events ≡ 0
      → Step p (record p { referrals = p.referrals ++ r ∷ [] })
  elsewhere :
      (o : Office) (g : Option ReferralSettings) → Step p (record p { office = o; settings = g })

pub data Reach (p : Program) : Program → Type 0 where
  here : Reach p p
  next : {q r : Program} → Reach p q → Step q r → Reach p r

waits_le : (i : ℕ) (rs : List Referral) → count_rows (waits i) rs ≤ count_rows (is_referral i) rs
waits_le i [] = omega arith
waits_le i (r ∷ rs) = ground (arith, waits_le i rs)

referred-IsOnce :
    (r : Referral) (p : Program)
    → count_rows (is_referral r.id) p.referrals ≡ 0
    → count_rows (is_grant r.id) p.events ≡ 0
    → IsOnce p
    → IsOnce (record p { referrals = p.referrals ++ r ∷ [] })
referred-IsOnce r p fresh unknown once i =
    let total = count_rows-append (waits i) p.referrals (r ∷ []) in
    elim (Bool-cases (r.id == i)) [
      | inl same ↦
          let q : r.id ≡ i = ground arith in
          let none_granted : granted i p ≡ 0 = subst (λ j. granted j p ≡ 0) q unknown in
          let none_there : count_rows (is_referral i) p.referrals ≡ 0 =
            subst (λ j. count_rows (is_referral j) p.referrals ≡ 0) q fresh in
          ground (arith, total, none_granted, none_there, waits_le i p.referrals)
      | inr other ↦ ground (arith, total, once i)
    ]

Step-IsOnce : {p q : Program} → Step p q → IsOnce p → IsOnce q
Step-IsOnce {p} (Step.rewards f today now) once = process_referral_rewards-IsOnce f today now p once
Step-IsOnce {p} (Step.cleanup now) once = referral_cleanup-IsOnce now p once
Step-IsOnce {p} (Step.referred r fresh unknown) once = referred-IsOnce r p fresh unknown once
Step-IsOnce (Step.elsewhere o g) once = once

Reach-keeps : {p q : Program} → Reach p q → IsOnce p → IsOnce q
Reach-keeps Reach.here once = once
Reach-keeps (Reach.next before step) once = Step-IsOnce step (Reach-keeps before once)

-- Whatever runs of the two tasks, new referrals and changes of the settings and users follow one another,
-- also where runs end by an exception: the log has no two entries 'reward_granted' for one referral, and
-- none for a referral that is pending, if that holds at the start. And when a referral is processed then, the
-- users do not change, or it gets one entry more, or the change of the date raised: only then may days be
-- given without an entry, and again by a later run. Other writers of the referrals are no steps here.
pub Reach-IsOnce :
    {p q : Program} (f : Formats) (g : ReferralSettings) (today now : ℕ) (d : Due)
    → Reach p q
    → IsOnce p
    → IsOnce q × IsPaid f g today now d q
Reach-IsOnce {p} {q} f g today now d steps once =
    (Reach-keeps steps once, process_referral-IsPaid f g today now d q)
