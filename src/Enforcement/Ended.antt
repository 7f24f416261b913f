-- ===== src/Enforcement/Ended.antt =====
-- app/core/stream_household_dedupe.py: a session that has ended, and is still remembered.
use vodum.Common.{
  ℕ, ◌+◌, ◌-◌, ◌≤◌, ◌≡◌, ◌≢◌, refl, true, false, List, [], ◌∷◌, String, str_eq, eq_iff, leb,
  Bool-cases, inl, inr, ◌∙◌, sym, ap, arith, add_group,
}
use vodum.Policies.{
  Session, Addresses, Remembered, Recent, text_keys, trim_user, household_user, remember,
  cleanup_recent_session_cache, is_duplicate, merge_households, enrich, enrich_previous,
  is_probable_same_household, deduplicate_household_sessions,
}

ne_test : (a b : String) → a ≢ b → str_eq a b ≡ false
ne_test a b h = elim (Bool-cases (str_eq a b)) [ inl t ↦ absurd (h ((eq_iff a b).0 t)) | inr f ↦ f ]

pub ne_of_test : (a b : String) → str_eq a b ≡ false → a ≢ b
ne_of_test a b h = λ e. let t = (eq_iff a b).1 e in cc

-- What is remembered after a poll of one live session, and of one that has ended.
abbrev both_seen : Session → Remembered → ℕ → Recent
both_seen s ended now =
    (
      household_user s,
      ended
          ∷ record { session = s; cache_ts = now }
          ∷ record { session = ended.session; cache_ts = now }
          ∷ [],
    )
    ∷ []

module _ (net : Addresses) (s : Session) (ended : Remembered) (key : s.session_key ≢ "")
    (old_key : ended.session.session_key ≢ "") (other : s.session_key ≢ ended.session.session_key)
    (same_user : household_user ended.session ≡ household_user s)
    (apart : is_probable_same_household net ended.session s ≡ false) where
  first_poll :
      (now : ℕ)
      → now ≤ ended.cache_ts + 300
      → deduplicate_household_sessions net now (s ∷ []) ((household_user s, ended ∷ []) ∷ [])
        ≡ (s ∷ ended.session ∷ [], both_seen s ended now)
  unfolding deduplicate_household_sessions merge_households enrich enrich_previous is_duplicate
      cleanup_recent_session_cache remember trim_user add_group
  first_poll now young =
      let fresh_one : leb (now - ended.cache_ts) 300 ≡ true = ground arith in
      let user = (eq_iff (household_user s) (household_user s)).1 refl in
      rw
        (
          fresh_one,
          ne_test s.session_key "" key,
          user,
          ne_test ended.session.session_key "" old_key,
          ne_test s.session_key ended.session.session_key other,
          apart,
          same_user,
          user,
          user,
          user,
          user,
        )
        refl

  next_poll :
      (now later : ℕ)
      → later ≤ now + 300
      → (deduplicate_household_sessions net later (s ∷ []) (both_seen s ended now)).0
        ≡ s ∷ ended.session ∷ []
  unfolding deduplicate_household_sessions merge_households enrich enrich_previous is_duplicate
      cleanup_recent_session_cache
  next_poll now later young =
      let recent : leb (later - now) 300 ≡ true = ground arith in
      let user = (eq_iff (household_user s) (household_user s)).1 refl in
      let old_self = (eq_iff ended.session.session_key ended.session.session_key).1 refl in
      let self = (eq_iff s.session_key s.session_key).1 refl in
      let other_way = ne_test ended.session.session_key s.session_key (λ e. other (sym e)) in
      elim (Bool-cases (leb (later - ended.cache_ts) 300)) [
        | inl y ↦
            rw
              (
                y,
                recent,
                ne_test s.session_key "" key,
                user,
                ne_test ended.session.session_key "" old_key,
                ne_test s.session_key ended.session.session_key other,
                other_way,
                self,
                ne_test s.session_key "" key,
                old_self,
                apart,
              )
              refl
        | inr n ↦
            rw
              (
                n,
                recent,
                ne_test s.session_key "" key,
                user,
                self,
                ne_test ended.session.session_key "" old_key,
                ne_test s.session_key "" key,
                ne_test s.session_key ended.session.session_key other,
                apart,
              )
              refl
      ]

  -- One live session, and one of the same user that has ended and is remembered, not of one
  -- household as it seems: a poll within five minutes counts both. It also remembers the ended one
  -- anew, so that a second poll, within five minutes of the first, counts both again.
  pub ended_session_stays :
      (now later : ℕ)
      → now ≤ ended.cache_ts + 300
      → later ≤ now + 300
      → let first =
          deduplicate_household_sessions net now (s ∷ []) ((household_user s, ended ∷ []) ∷ []) in
        (first.0 ≡ s ∷ ended.session ∷ [])
        × ((deduplicate_household_sessions net later (s ∷ []) first.1).0 ≡ s ∷ ended.session ∷ [])
  ended_session_stays now later young soon =
      let e = first_poll now young in
      (
        ap (λ (r : List Session × Recent). r.0) e,
        ap
              (λ (r : List Session × Recent).
                (deduplicate_household_sessions net later (s ∷ []) r.1).0)
              e
            ∙ next_poll now later soon,
      )
