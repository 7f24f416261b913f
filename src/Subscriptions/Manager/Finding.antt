-- ===== src/Subscriptions/Manager/Finding.antt =====
-- app/tasks/expired_subscription_manager.py: the policy that is found for a user, and what a deletion by
-- id leaves.
use vodum.Common.{
  ℕ, ◌+◌, ◌≤◌, ◌≡◌, refl, Bool, true, false, not, ◌&&◌, Option, none, some, List, [], ◌∷◌, ◌∙◌, sym,
  where_rows, delete_rows, count_rows, count_rows-sort_by, sort_by, arith,
}
use vodum.State.{ok}
use vodum.Subscriptions.Expiry.{SystemRule}
use vodum.Subscriptions.Manager.{
  ScopedPolicy, is_tagged, is_object, is_of, is_newer, first_tagged, find_system_policy_id,
  is_policy,
}

abbrev pub is_system : ℕ → ScopedPolicy → Bool
is_system user p = is_of user p && is_tagged p.rule

abbrev pub is_broken : ScopedPolicy → Bool
is_broken p = p.is_of_user && not (is_object p.rule)

-- What a search over a list may find.
abbrev pub IsFound : (ScopedPolicy → Bool) → List ScopedPolicy → Option ℕ → Type 0
IsFound q ps none = count_rows q ps ≡ 0
IsFound q ps (some i) = 1 ≤ count_rows (λ p. q p && is_policy i p) ps

abbrev Search : List ScopedPolicy → Type 0
Search ps =
    (found : Option ℕ) × (first_tagged ps ≡ ok found) × IsFound (λ p. is_tagged p.rule) ps found

IsFound-later :
    (p : ScopedPolicy) (ps : List ScopedPolicy) (found : Option ℕ)
    → p.rule ≡ SystemRule.untagged
    → IsFound (λ p. is_tagged p.rule) ps found
    → IsFound (λ p. is_tagged p.rule) (p ∷ ps) found
IsFound-later p ps none e h = ground (arith, e, h)
IsFound-later p ps (some i) e h = ground (arith, e, h)

first_tagged-step :
    (p : ScopedPolicy) (ps : List ScopedPolicy) (r : SystemRule)
    → p.rule ≡ r
    → is_object r ≡ true
    → Search ps
    → Search (p ∷ ps)
unfolding first_tagged
first_tagged-step p ps SystemRule.tagged e h (found, same, is) =
    (some p.id, rw (first_tagged, e) refl, ground (arith, e))
first_tagged-step p ps SystemRule.untagged e h (found, same, is) =
    (found, rw (first_tagged, e) same, IsFound-later p ps found e is)
first_tagged-step p ps SystemRule.not_object e h search = absurd cc

first_tagged-finds :
    (ps : List ScopedPolicy)
    → count_rows (λ (p : ScopedPolicy). not (is_object p.rule)) ps ≡ 0
    → Search ps
unfolding first_tagged
first_tagged-finds [] h = (none, refl, refl)
first_tagged-finds (p ∷ ps) h =
    first_tagged-step p ps p.rule refl (ground (arith, h))
      (first_tagged-finds ps (ground (arith, h)))

count-where :
    (q w : ScopedPolicy → Bool) (ps : List ScopedPolicy)
    → count_rows q (where_rows w ps) ≡ count_rows (λ p. w p && q p) ps
count-where q w [] = refl
count-where q w (p ∷ ps) = ground (arith, count-where q w ps)

none-broken :
    (user : ℕ) (ps : List ScopedPolicy)
    → count_rows is_broken ps ≡ 0
    → count_rows (λ p. is_of user p && not (is_object p.rule)) ps ≡ 0
none-broken user [] h = refl
none-broken user (p ∷ ps) h = ground (arith, h, none-broken user ps)

IsFound-back :
    (user : ℕ) (ps : List ScopedPolicy) (found : Option ℕ)
    → IsFound (λ p. is_tagged p.rule) (sort_by is_newer (where_rows (is_of user) ps)) found
    → IsFound (is_system user) ps found
IsFound-back user ps none h =
    sym (count_rows-sort_by _ is_newer (where_rows (is_of user) ps) ∙ count-where _ (is_of user) ps)
    ∙ h
IsFound-back user ps (some i) h = omega (
  arith,
  h,
  count_rows-sort_by (λ (p : ScopedPolicy). is_tagged p.rule && is_policy i p) is_newer
      (where_rows (is_of user) ps),
  count-where (λ (p : ScopedPolicy). is_tagged p.rule && is_policy i p) (is_of user) ps,
  regroup ps,
)
  where
    regroup :
        (ps : List ScopedPolicy)
        → count_rows (λ p. is_of user p && (is_tagged p.rule && is_policy i p)) ps
          ≡ count_rows (λ p. is_system user p && is_policy i p) ps
    regroup [] = refl
    regroup (p ∷ ps) = ground (arith, regroup ps)

pub find_system_policy_id-finds :
    (user : ℕ) (ps : List ScopedPolicy)
    → count_rows is_broken ps ≡ 0
    → (found : Option ℕ) × (find_system_policy_id user ps ≡ ok found)
      × IsFound (is_system user) ps found
unfolding find_system_policy_id
find_system_policy_id-finds user ps h =
    let rows = where_rows (is_of user) ps in
    let (found, same, is) = first_tagged-finds (sort_by is_newer rows) (
      count_rows-sort_by _ is_newer rows ∙ count-where _ (is_of user) ps ∙ none-broken user ps h) in
    (found, same, IsFound-back user ps found is)

pub count-delete :
    (q p : ScopedPolicy → Bool) (xs : List ScopedPolicy)
    → count_rows q xs ≡ count_rows q (delete_rows p xs) + count_rows (λ x. q x && p x) xs
count-delete q p [] = refl
count-delete q p (x ∷ xs) = ground (arith, count-delete q p xs)

-- Two tests that exclude each other share the rows of a third.
pub count-apart :
    (q r p : ScopedPolicy → Bool)
    → ((x : ScopedPolicy) → q x ≡ true → r x ≡ false)
    → (xs : List ScopedPolicy)
    → count_rows (λ x. q x && p x) xs + count_rows (λ x. r x && p x) xs ≤ count_rows p xs
count-apart q r p out [] = omega arith
count-apart q r p out (x ∷ xs) = ground (arith, out x, count-apart q r p out xs)
