-- ===== src/Subscriptions/Manager/Orphans.antt =====
-- app/tasks/expired_subscription_manager.py: the policies of users who are gone.
use vodum.Common.{
  ℕ, ◌==◌, ◌≡◌, refl, Bool, true, false, not, ◌&&◌, List, [], ◌∷◌, ap, any, count_rows,
  count_rows-delete_le, delete_rows, if◌then◌else◌, arith, Bool-cases, Option-cases, inl, inr,
}
use vodum.State.{ok}
use vodum.Subscriptions.Expiry.{SystemRule}
use vodum.Subscriptions.Manager.{
  ScopedPolicy, Dated, is_tagged, is_object, is_policy, is_orphan, cleanup_orphan_system_policies,
}
use vodum.Subscriptions.Manager.Finding.{is_system, is_broken}
use vodum.Subscriptions.Manager.Effects.{IsTidy}

abbrev pub is_dated : ℕ → Dated → Bool
is_dated i u = u.id == i

-- What a run leaves as it is.
abbrev pub IsUntouched : List ScopedPolicy → List ScopedPolicy → Type 0
IsUntouched ps ps' =
    (q : ScopedPolicy → Bool)
    → ((p : ScopedPolicy) → q p ≡ true → is_tagged p.rule ≡ false)
    → count_rows q ps' ≡ count_rows q ps

-- What the cleanup leaves of the rows.
pub record IsCleaned (users : List Dated) (next : ℕ) (ps ps' : List ScopedPolicy) : Type 0 where
  pub tidy : IsTidy ps' next
  pub at :
      (i : ℕ)
      → count_rows (is_system i) ps'
        ≡ (if any (is_dated i) users then count_rows (is_system i) ps else 0)
  pub others : IsUntouched ps ps'

abbrev pub cleaned : List Dated → List ScopedPolicy → List ScopedPolicy
cleaned users ps = delete_rows (λ p. p.is_of_user && (is_tagged p.rule && is_orphan users p)) ps

cleanup-step :
    (users : List Dated) (p : ScopedPolicy) (ps : List ScopedPolicy) (mine : Bool) (r : SystemRule)
    → p.is_of_user ≡ mine
    → p.rule ≡ r
    → (mine && not (is_object r)) ≡ false
    → cleanup_orphan_system_policies users ps ≡ (ok tt, cleaned users ps)
    → cleanup_orphan_system_policies users (p ∷ ps) ≡ (ok tt, cleaned users (p ∷ ps))
unfolding cleanup_orphan_system_policies
cleanup-step users p ps false r e f h rest = simp (cleanup_orphan_system_policies, e, rest) refl
cleanup-step users p ps true SystemRule.untagged e f h rest =
    simp (cleanup_orphan_system_policies, e, f, rest) refl
cleanup-step users p ps true SystemRule.not_object e f h rest = absurd cc
cleanup-step users p ps true SystemRule.tagged e f h rest = elim (Bool-cases (is_orphan users p)) [
  | inl gone ↦ simp (cleanup_orphan_system_policies, e, f, gone, rest) refl
  | inr kept ↦ simp (cleanup_orphan_system_policies, e, f, kept, rest) refl
]

pub cleanup-deletes :
    (users : List Dated) (ps : List ScopedPolicy)
    → count_rows is_broken ps ≡ 0
    → cleanup_orphan_system_policies users ps ≡ (ok tt, cleaned users ps)
unfolding cleanup_orphan_system_policies
cleanup-deletes users [] h = refl
cleanup-deletes users (p ∷ ps) h =
    cleanup-step users p ps p.is_of_user p.rule refl refl (ground (arith, h))
      (cleanup-deletes users ps (ground (arith, h)))

count-cleaned :
    (users : List Dated) (i : ℕ) (ps : List ScopedPolicy)
    → count_rows (is_system i) (cleaned users ps)
      ≡ (if any (is_dated i) users then count_rows (is_system i) ps else 0)
count-cleaned users i [] = ground arith
count-cleaned users i (p ∷ ps) = elim (Option-cases p.scope_id) [
  | inl e ↦ ground (arith, count-cleaned users i ps, e)
  | inr (j, e) ↦ elim (Bool-cases (j == i)) [
    | inr other ↦ ground (arith, count-cleaned users i ps, e, other)
    | inl same ↦
        let there : any (is_dated j) users ≡ any (is_dated i) users =
          ap (λ k. any (is_dated k) users) (ground (arith, same)) in
        ground (arith, count-cleaned users i ps, e, same, there)
  ]
]

count-untouched :
    (users : List Dated) (q : ScopedPolicy → Bool) (ps : List ScopedPolicy)
    → ((p : ScopedPolicy) → q p ≡ true → is_tagged p.rule ≡ false)
    → count_rows q (cleaned users ps) ≡ count_rows q ps
count-untouched users q [] out = refl
count-untouched users q (p ∷ ps) out = ground (arith, out p, count-untouched users q ps out)

pub cleaned-IsCleaned :
    (users : List Dated) (next : ℕ) (ps : List ScopedPolicy)
    → IsTidy ps next
    → IsCleaned users next ps (cleaned users ps)
cleaned-IsCleaned users next ps h = record {
  tidy = record {
    ids = λ k. omega (arith, count_rows-delete_le (is_policy k) _ ps, h.ids k);
    fresh = λ k le. omega (arith, count_rows-delete_le (is_policy k) _ ps, h.fresh k le);
    once = λ u. omega (arith, count_rows-delete_le (is_system u) _ ps, h.once u);
    objects = omega (arith, count_rows-delete_le is_broken _ ps, h.objects);
  };
  at = λ i. count-cleaned users i ps;
  others = λ q out. count-untouched users q ps out;
}
