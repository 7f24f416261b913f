-- ===== src/Subscriptions/Manager/Effects.antt =====
-- app/tasks/expired_subscription_manager.py: what the steps for one user do to the policies.
use vodum.Common.{
  ℕ, ◌==◌, ◌≤◌, ◌≡◌, refl, Bool, true, false, not, ◌&&◌, Option, none, some, List, [], ◌∷◌, ◌∙◌,
  where_rows, subst, count_rows, count_rows-append, count_rows-delete_le, if◌then◌else◌, arith,
  Bool-cases, inl, inr,
}
use vodum.State.{ok}
use vodum.Subscriptions.Expiry.{Texts}
use vodum.Subscriptions.Disabled.{disable_accounts_lem}
use vodum.Subscriptions.Manager.{
  ScopedPolicy, Managed, ManagerMode, is_policy, system_policy, create_system_policy, delete_policy,
  delete_found, warned, disable_access_for_user, is_held, disable_user, is_past, is_over,
  manage_user,
}
use vodum.Subscriptions.Manager.Finding.{
  is_system, is_broken, IsFound, find_system_policy_id-finds, count-delete, count-apart,
}

-- Ids are unique and lie below the next one, a user has at most one policy with the tag, and each rule
-- of a user's policy is an object.
pub record IsTidy (ps : List ScopedPolicy) (next : ℕ) : Type 0 where
  pub ids : (i : ℕ) → count_rows (is_policy i) ps ≤ 1
  pub fresh : (i : ℕ) → next ≤ i → count_rows (is_policy i) ps ≡ 0
  pub once : (user : ℕ) → count_rows (is_system user) ps ≤ 1
  pub objects : count_rows is_broken ps ≡ 0

-- The user has n policies with the tag, and whatever is not one of them is as before.
pub record IsDone (user n : ℕ) (s s' : Managed) : Type 0 where
  pub tidy : IsTidy s'.policies s'.next_id
  pub at : count_rows (is_system user) s'.policies ≡ n
  pub others :
      (q : ScopedPolicy → Bool)
      → ((p : ScopedPolicy) → q p ≡ true → is_system user p ≡ false)
      → count_rows q s'.policies ≡ count_rows q s.policies

then-IsDone :
    {user m n : ℕ} {s t u : Managed} → IsDone user m s t → IsDone user n t u → IsDone user n s u
then-IsDone h k = record {
  tidy = k.tidy;
  at = k.at;
  others = λ q out. k.others q out ∙ h.others q out;
}

delete_found-IsDone :
    (user : ℕ) (found : Option ℕ) (s : Managed)
    → IsTidy s.policies s.next_id
    → IsFound (is_system user) s.policies found
    → IsDone user 0 s (delete_found found s)
unfolding delete_policy
delete_found-IsDone user none s h is = record { tidy = h; at = is; others = λ q out. refl }
delete_found-IsDone user (some i) s h is =
    let ps = s.policies in
    let there = count-delete (is_system user) (is_policy i) ps in
    record {
      tidy = record {
        ids = λ k. omega (arith, count_rows-delete_le (is_policy k) (is_policy i) ps, h.ids k);
        fresh = λ k le.
            omega (arith, count_rows-delete_le (is_policy k) (is_policy i) ps, h.fresh k le);
        once = λ u. omega (arith, count_rows-delete_le (is_system u) (is_policy i) ps, h.once u);
        objects = omega (arith, count_rows-delete_le is_broken (is_policy i) ps, h.objects);
      };
      at = omega (arith, there, h.once user, is);
      others = λ q out. omega (
        arith,
        count-delete q (is_policy i) ps,
        count-apart q (is_system user) (is_policy i) out ps,
        h.ids i,
        is,
      );
    }

warned-IsDone :
    (now user : ℕ) (found : Option ℕ) (s : Managed)
    → IsTidy s.policies s.next_id
    → IsFound (is_system user) s.policies found
    → IsDone user 1 s (warned now user found s)
unfolding create_system_policy
warned-IsDone now user (some i) s h is = record {
  tidy = h;
  at = omega (arith, count-delete (is_system user) (is_policy i) s.policies, h.once user, is);
  others = λ q out. refl;
}
warned-IsDone now user none s h is =
    let ps = s.policies in
    let one = system_policy s.next_id user in
    let new = one ∷ [] in
    record {
      tidy = record {
        ids = λ k. ground (arith, count_rows-append (is_policy k) ps new, h.ids k, h.fresh k);
        fresh = λ k le. ground (arith, count_rows-append (is_policy k) ps new, h.fresh k);
        once = λ u. elim (Bool-cases (user == u)) [
          | inr other ↦ ground (arith, count_rows-append (is_system u) ps new, h.once u, other)
          | inl same ↦
              let gone : count_rows (is_system u) ps ≡ 0 =
                subst (λ k. count_rows (is_system k) ps ≡ 0) (ground (arith, same)) is in
              ground (arith, count_rows-append (is_system u) ps new, gone)
        ];
        objects = ground (arith, count_rows-append is_broken ps new, h.objects);
      };
      at = ground (arith, count_rows-append (is_system user) ps new, is);
      others = λ q out. ground (arith, count_rows-append q ps new, out one);
    }

disable_user-IsDone :
    (t : Texts) (user : ℕ) (s : Managed)
    → IsTidy s.policies s.next_id
    → ((disable_user t user s).0 ≡ ok tt) × IsDone user 0 s (disable_user t user s).1
unfolding disable_user disable_access_for_user
disable_user-IsDone t user s h =
    let rows = where_rows (is_held user s.access) s.access.accounts in
    let s' = record s { access = (disable_access_for_user t user s.access).1 } in
    let (n, gone, bound) = disable_accounts_lem t rows s.access in
    let (found, e, is) = find_system_policy_id-finds user s.policies h.objects in
    let done = delete_found-IsDone user found s' h is in
    rw (disable_user, gone, e)
      (refl, record { tidy = done.tidy; at = done.at; others = done.others })

-- The number of policies with the tag that a user is to have whose date is read so.
abbrev pub warnings : ManagerMode → ℕ → ℕ → Option ℕ → ℕ
warnings mode days today e = if is_past e today && not (is_over mode days today e) then 1 else 0

pub manage_user-IsDone :
    (t : Texts) (mode : ManagerMode) (days today now user : ℕ) (e : Option ℕ) (s : Managed)
    → IsTidy s.policies s.next_id
    → let run = manage_user t mode days today now user e s in
      (run.0 ≡ ok tt) × IsDone user (warnings mode days today e) s run.1
unfolding manage_user
manage_user-IsDone t mode days today now user e s h =
    let (found, same, is) = find_system_policy_id-finds user s.policies h.objects in
    elim (Bool-cases (is_past e today)) [
      | inr early ↦ rw (manage_user, same, early) (refl, delete_found-IsDone user found s h is)
      | inl past ↦
          let first = warned-IsDone now user found s h is in
          elim (Bool-cases (is_over mode days today e)) [
            | inr warned ↦ rw (manage_user, same, past, warned) (refl, first)
            | inl over ↦
                let (ended, done) =
                  disable_user-IsDone t user (warned now user found s) first.tidy in
                rw (manage_user, same, past, over) (ended, then-IsDone first done)
          ]
    ]
