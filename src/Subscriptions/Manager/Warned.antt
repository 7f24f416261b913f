-- ===== src/Subscriptions/Manager/Warned.antt =====
-- app/tasks/expired_subscription_manager.py: who has a policy after a run.
use vodum.Common.{
  ℕ, ◌==◌, ◌≤◌, ◌≡◌, ◌≢◌, refl, Option, none, some, List, [], ◌∷◌, ◌∙◌, sym, ap, any, subst,
  count_rows, if◌then◌else◌, arith, Bool-cases, Option-cases, inl, inr,
}
use vodum.State.{ok}
use vodum.Subscriptions.Expiry.{Texts}
use vodum.Subscriptions.Manager.{
  Dated, Managed, ManagerMode, warn_only, warn_then_disable, other_mode, manage_user, manage_users,
  manage_expired,
}
use vodum.Subscriptions.Manager.Finding.{is_system, is_broken}
use vodum.Subscriptions.Manager.Effects.{IsTidy, IsDone, warnings, manage_user-IsDone}
use vodum.Subscriptions.Manager.Orphans.{
  is_dated, IsUntouched, cleaned, cleanup-deletes, cleaned-IsCleaned,
}

-- The policies that a user is to have who had n before: none without a row, and n without a date.
abbrev pub expected : ManagerMode → ℕ → ℕ → ℕ → List Dated → ℕ → ℕ
expected mode days today i [] n = 0
expected mode days today i (u ∷ us) n =
    if u.id == i
    then elim u.expires [ none ↦ n | some e ↦ warnings mode days today e ]
    else expected mode days today i us n

-- The same for the loop alone.
abbrev managed : ManagerMode → ℕ → ℕ → ℕ → List Dated → ℕ → ℕ
managed mode days today i [] n = n
managed mode days today i (u ∷ us) n =
    if u.id == i
    then elim u.expires [ none ↦ n | some e ↦ warnings mode days today e ]
    else managed mode days today i us n

managed-expected :
    (mode : ManagerMode) (days today i n : ℕ) (us : List Dated)
    → managed mode days today i us (if any (is_dated i) us then n else 0)
      ≡ expected mode days today i us n
managed-expected mode days today i n [] = refl
managed-expected mode days today i n (u ∷ us) =
    ground (arith, managed-expected mode days today i n us)

managed-absent :
    (mode : ManagerMode) (days today i n : ℕ) (us : List Dated)
    → count_rows (is_dated i) us ≡ 0
    → managed mode days today i us n ≡ n
managed-absent mode days today i n [] h = refl
managed-absent mode days today i n (u ∷ us) h =
    ground (arith, h, managed-absent mode days today i n us)

record IsManaged (mode : ManagerMode) (days today : ℕ) (us : List Dated) (s s' : Managed)
    : Type 0 where
  tidy : IsTidy s'.policies s'.next_id
  at :
      (i : ℕ)
      → count_rows (is_system i) s'.policies
        ≡ managed mode days today i us (count_rows (is_system i) s.policies)
  others : IsUntouched s.policies s'.policies

module _ (t : Texts) (mode : ManagerMode) (days today now : ℕ) where
  step-IsManaged :
      (u : Dated) (us : List Dated) (e : Option ℕ) (s s' s'' : Managed)
      → u.expires ≡ some e
      → count_rows (is_dated u.id) us ≡ 0
      → IsDone u.id (warnings mode days today e) s s'
      → IsManaged mode days today us s' s''
      → IsManaged mode days today (u ∷ us) s s''
  step-IsManaged u us e s s' s'' dated new h k = record {
    tidy = k.tidy;
    at = λ i. elim (Bool-cases (u.id == i)) [
      | inr other ↦ rw other (
          k.at i
          ∙ ap (λ n. managed mode days today i us n)
              (h.others (is_system i) (λ p q. ground (arith, q, other))))
      | inl same ↦
          let q : u.id ≡ i = ground (arith, same) in
          rw (same, dated)
            (k.at i
              ∙ managed-absent mode days today i _ us
                  (subst (λ j. count_rows (is_dated j) us ≡ 0) q new)
              ∙ subst (λ j. count_rows (is_system j) s'.policies ≡ warnings mode days today e) q
                  h.at)
    ];
    others = λ q out. k.others q out ∙ h.others q (λ p e. ground (arith, out p e));
  }

  skip-IsManaged :
      (u : Dated) (us : List Dated) (s s' : Managed)
      → u.expires ≡ none
      → count_rows (is_dated u.id) us ≡ 0
      → IsManaged mode days today us s s'
      → IsManaged mode days today (u ∷ us) s s'
  skip-IsManaged u us s s' undated new k = record {
    tidy = k.tidy;
    at = λ i. elim (Bool-cases (u.id == i)) [
      | inr other ↦ rw other (k.at i)
      | inl same ↦
          rw (same, undated)
            (k.at i
              ∙ managed-absent mode days today i _ us
                  (subst (λ j. count_rows (is_dated j) us ≡ 0) (ground (arith, same)) new))
    ];
    others = k.others;
  }

  manage_users-skip :
      (u : Dated) (us : List Dated) (s : Managed)
      → u.expires ≡ none
      → manage_users t mode days today now (u ∷ us) s ≡ manage_users t mode days today now us s
  unfolding manage_users
  manage_users-skip u us s undated = rw (manage_users, undated) refl

  manage_users-step :
      (u : Dated) (us : List Dated) (e : Option ℕ) (s : Managed)
      → u.expires ≡ some e
      → (manage_user t mode days today now u.id e s).0 ≡ ok tt
      → manage_users t mode days today now (u ∷ us) s
        ≡ manage_users t mode days today now us (manage_user t mode days today now u.id e s).1
  unfolding manage_users
  manage_users-step u us e s dated done = rw (manage_users, dated, done) refl

  manage_users-IsManaged :
      (us : List Dated) (s : Managed)
      → ((i : ℕ) → count_rows (is_dated i) us ≤ 1)
      → IsTidy s.policies s.next_id
      → let run = manage_users t mode days today now us s in
        (run.0 ≡ ok tt) × IsManaged mode days today us s run.1
  unfolding manage_users
  manage_users-IsManaged [] s once h =
      (refl, record { tidy = h; at = λ i. refl; others = λ q out. refl })
  manage_users-IsManaged (u ∷ us) s once h =
      let fewer : (i : ℕ) → count_rows (is_dated i) us ≤ 1 = λ i. ground (arith, once i) in
      let new : count_rows (is_dated u.id) us ≡ 0 = ground (arith, once u.id) in
      elim (Option-cases u.expires) [
        | inl undated ↦
            let (same, k) = manage_users-IsManaged us s fewer h in
            subst (λ r. (r.0 ≡ ok tt) × IsManaged mode days today (u ∷ us) s r.1)
              (sym (manage_users-skip u us s undated)) (same, skip-IsManaged u us s _ undated new k)
        | inr (e, dated) ↦
            let (done, one) = manage_user-IsDone t mode days today now u.id e s h in
            let s' = (manage_user t mode days today now u.id e s).1 in
            let (same, k) = manage_users-IsManaged us s' fewer one.tidy in
            subst (λ r. (r.0 ≡ ok tt) × IsManaged mode days today (u ∷ us) s r.1)
              (sym (manage_users-step u us e s dated done))
              (same, step-IsManaged u us e s s' _ dated new one k)
      ]

abbrev pub or_week : ℕ → ℕ
or_week delay = if delay == 0 then 7 else delay

run-step :
    (t : Texts) (mode : ManagerMode) (delay today now : ℕ) (s : Managed)
    → mode ≢ other_mode
    → count_rows is_broken s.policies ≡ 0
    → manage_expired t mode delay today now s
      ≡ manage_users t mode
          (or_week delay)
          today
          now
          s.users
          (record s { policies = cleaned s.users s.policies })
unfolding manage_expired
run-step t other_mode delay today now s warns h = absurd (warns refl)
run-step t warn_only delay today now s warns h =
    let deletes = cleanup-deletes s.users s.policies h in
    rw (manage_expired, ap (λ r. r.0) deletes)
      (ap
        (λ r.
          manage_users t warn_only (or_week delay) today now s.users (record s { policies = r.1 }))
        deletes)
run-step t warn_then_disable delay today now s warns h =
    let deletes = cleanup-deletes s.users s.policies h in
    rw (manage_expired, ap (λ r. r.0) deletes)
      (ap
        (λ r.
          manage_users t warn_then_disable (or_week delay) today now s.users
            (record s { policies = r.1 }))
        deletes)

-- In the modes that warn, with unique ids of users and policies, at most one policy with the tag for a
-- user and no rule that is not an object, a run raises nothing. Afterwards a user whose expiry is a past
-- day has one policy with the tag, unless the mode disables and the delay is over; any other user with
-- an expiry, and an id without a user, has none; a user without an expiry has what was there before.
-- The policies without the tag are as before, and those conditions on the policies hold again.
pub manage_expired_lem :
    (t : Texts) (mode : ManagerMode) (delay today now : ℕ) (s : Managed)
    → mode ≢ other_mode
    → ((i : ℕ) → count_rows (is_dated i) s.users ≤ 1)
    → IsTidy s.policies s.next_id
    → let run = manage_expired t mode delay today now s in
      (run.0 ≡ ok tt)
      × ((i : ℕ)
          → count_rows (is_system i) run.1.policies
            ≡ expected mode (or_week delay) today i s.users (count_rows (is_system i) s.policies))
      × IsUntouched s.policies run.1.policies
      × IsTidy run.1.policies run.1.next_id
manage_expired_lem t mode delay today now s warns once h =
    let s' = record s { policies = cleaned s.users s.policies } in
    let first = cleaned-IsCleaned s.users s.next_id s.policies h in
    let (ends, k) =
      manage_users-IsManaged t mode (or_week delay) today now s.users s' once first.tidy in
    rw (run-step t mode delay today now s warns h.objects) (
      ends,
      λ i.
          k.at i
          ∙ ap (λ n. managed mode (or_week delay) today i s.users n) (first.at i)
          ∙ managed-expected mode (or_week delay) today i _ s.users,
      λ q out. k.others q out ∙ first.others q out,
      k.tidy,
    )
