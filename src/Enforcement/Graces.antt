-- ===== src/Enforcement/Graces.antt =====
-- app/core/stream_ip_transition_grace.py: when a switch of networks is graced.
use vodum.Common.{
  ℕ, ◌+◌, ◌-◌, ◌≡◌, refl, Bool, true, not, ◌||◌, Option, none, some, List, ltb, leb, length,
  find_row, find_row-All, All, arith, Bool-cases, Option-cases, inl, inr, [], ◌∷◌,
}
use vodum.Policies.{
  Session, UserKey, GraceKey, Graced, same_grace, household_media_grace_seconds, grace_switch,
  ip_grace_key, kept_graces, is_coherent_media_transition, should_grace_coherent_ip_switch,
}

abbrev IsYoung : ℕ → Graced → Type 0
IsYoung now g = leb (now - g.first_seen) household_media_grace_seconds ≡ true

abbrev AreYoung : ℕ → Option Graced → Type 0
AreYoung now none = Unit {0}
AreYoung now (some g) = IsYoung now g

kept_graces-IsYoung : (now : ℕ) (cache : List Graced) → All (IsYoung now) (kept_graces now cache)
unfolding kept_graces
kept_graces-IsYoung now [] = tt
kept_graces-IsYoung now (g ∷ cache) = elim (Bool-cases (ltb 300 (now - g.first_seen))) [
  | inl t ↦ rw t (kept_graces-IsYoung now cache)
  | inr f ↦ rw f (ground arith, kept_graces-IsYoung now cache)
]

grace_switch_young :
    (now : ℕ) (key : GraceKey) (found : Option Graced) (cache : List Graced)
    → AreYoung now found
    → (grace_switch now key found cache).0 ≡ true
unfolding grace_switch
grace_switch_young now key none cache h = refl
grace_switch_young now key (some g) cache h = ground (arith, h)

found-IsYoung :
    (now : ℕ) (p : Graced → Bool) (cache : List Graced)
    → All (IsYoung now) cache
    → AreYoung now (find_row p cache)
found-IsYoung now p cache h = elim (Option-cases (find_row p cache)) [
  | inl none_found ↦ rw none_found tt
  | inr (g, found) ↦ rw found (find_row-All (IsYoung now) p cache g h found)
]

-- Whether a switch is graced depends on neither the clock nor the cache: it is as long as the
-- addresses are at most one too many and the sessions, two at least, are of one programme. So the
-- grace has no end.
pub grace_never_ends :
    (policy_id : ℕ) (user : UserKey) (sessions : List Session) (ips max_ips now : ℕ)
    (cache : List Graced)
    → (should_grace_coherent_ip_switch policy_id user sessions ips max_ips now cache).0
      ≡ not (
          ltb (max_ips + 1) ips
          || ltb (length sessions) 2
          || not (is_coherent_media_transition sessions))
unfolding should_grace_coherent_ip_switch
grace_never_ends policy_id user sessions ips max_ips now cache =
    let key = ip_grace_key policy_id user sessions in
    let kept = kept_graces now cache in
    let graced : (grace_switch now key (find_row (λ g. same_grace key g.key) kept) kept).0 ≡ true =
      grace_switch_young now key (find_row (λ g. same_grace key g.key) kept) kept
        (found-IsYoung now (λ g. same_grace key g.key) kept (kept_graces-IsYoung now cache)) in
    elim (Bool-cases (
      ltb (max_ips + 1) ips
      || ltb (length sessions) 2
      || not (is_coherent_media_transition sessions))) [ inl t ↦ rw t refl | inr f ↦ rw f graced ]
