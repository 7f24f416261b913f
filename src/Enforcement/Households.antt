-- ===== src/Enforcement/Households.antt =====
-- app/core/stream_household_dedupe.py: what is kept of the sessions, and what is remembered.
use vodum.Common.{
  ℕ, zero, suc, ◌-◌, ◌≤◌, ◌≡◌, ◌≢◌, subst, refl, Bool, true, false, not, List, [], ◌∷◌, ◌++◌,
  String, str_eq, eq_iff, length, length-append, All, All-append, if◌then◌else◌, Bool-cases, inl,
  inr, sym, arith, add_group,
}
use vodum.Policies.{
  Session, Addresses, Remembered, Recent, text_keys, remembered_sessions, drop, fresh, keep_user,
  trim_user, household_user, remember, cleanup_recent_session_cache, is_duplicate, merge_households,
  enrich, enrich_previous, remembered, is_probable_same_household, deduplicate_household_sessions,
}

abbrev pub IsBounded : Recent → Type 0
IsBounded cache = All (λ (g : String × List Remembered). length g.1 ≤ remembered_sessions) cache

length-drop : {A : Type 0} (n : ℕ) (xs : List A) → length (drop n xs) ≡ length xs - n
length-drop zero xs = omega arith
length-drop (suc n) [] = omega arith
length-drop (suc n) (x ∷ xs) = omega (arith, length-drop n xs)

fresh-le : (now : ℕ) (rs : List Remembered) → length (fresh now rs) ≤ length rs
fresh-le now [] = omega arith
fresh-le now (r ∷ rs) = ground (arith, fresh-le now rs)

keep_user-IsBounded :
    (k : String) (rs : List Remembered) (cache : Recent)
    → length rs ≤ remembered_sessions
    → IsBounded cache
    → IsBounded (keep_user k rs cache)
keep_user-IsBounded k [] cache h hs = hs
keep_user-IsBounded k (r ∷ rs) cache h hs = (h, hs)

cleanup-IsBounded :
    (now : ℕ) (cache : Recent)
    → IsBounded cache
    → IsBounded (cleanup_recent_session_cache now cache)
unfolding cleanup_recent_session_cache
cleanup-IsBounded now [] h = tt
cleanup-IsBounded now ((k, rs) ∷ cache) h =
    keep_user-IsBounded k (fresh now rs) (cleanup_recent_session_cache now cache)
      (omega (arith, fresh-le now rs, h.0)) (cleanup-IsBounded now cache h.1)

-- One session more for a user, and the oldest one less where there are too many.
trim_add-IsBounded :
    (k : String) (r : Remembered) (cache : Recent)
    → IsBounded cache
    → IsBounded (trim_user k (add_group k r cache))
unfolding trim_user add_group
trim_add-IsBounded k r [] h = rw ((eq_iff k k).1 refl) (omega arith, tt)
trim_add-IsBounded k r ((j, rs) ∷ cache) h = elim (Bool-cases (str_eq j k)) [
  | inl t ↦
      rw (t, t)
        (
          omega (
            arith,
            length-drop (length (rs ++ r ∷ []) - remembered_sessions) (rs ++ r ∷ []),
            length-append rs (r ∷ []),
          ),
          h.1,
        )
  | inr f ↦ rw (f, f) (h.0, trim_add-IsBounded k r cache h.1)
]

remember-IsBounded :
    (now : ℕ) (s : Session) (cache : Recent) → IsBounded cache → IsBounded (remember now s cache)
unfolding remember
remember-IsBounded now s cache h =
    trim_add-IsBounded (household_user s) (record { session = s; cache_ts = now }) cache h

merge-IsBounded :
    (net : Addresses) (now : ℕ) (ss kept : List Session) (cache : Recent)
    → IsBounded cache
    → IsBounded (merge_households net now ss kept cache).1
unfolding merge_households
merge-IsBounded net now [] kept cache h = h
merge-IsBounded net now (s ∷ ss) kept cache h = merge-IsBounded net now ss _ _ (
    either (not (is_duplicate net s kept)) (remember now s cache) cache
      (remember-IsBounded now s cache h) h)
  where
    either : (b : Bool) (x y : Recent) → IsBounded x → IsBounded y → IsBounded (if b then x else y)
    either true x y hx hy = hx
    either false x y hx hy = hy

-- Each of the sessions is of another household than those before it.
abbrev pub AreApart : Addresses → List Session → Type 0
AreApart net [] = Unit {0}
AreApart net (k ∷ kept) =
    All (λ s. is_probable_same_household net s k ≡ false) kept × AreApart net kept

AreApart-append :
    (net : Addresses) (s : Session) (kept : List Session)
    → AreApart net kept
    → is_duplicate net s kept ≡ false
    → AreApart net (kept ++ s ∷ [])
unfolding is_duplicate
AreApart-append net s [] h out = (tt, tt)
AreApart-append net s (k ∷ kept) h out = (
  All-append (λ r. is_probable_same_household net r k ≡ false) kept (s ∷ []) h.0 (ground arith, tt),
  AreApart-append net s kept h.1 (ground arith),
)

merge-AreApart :
    (net : Addresses) (now : ℕ) (ss kept : List Session) (cache : Recent)
    → AreApart net kept
    → AreApart net (merge_households net now ss kept cache).0
unfolding merge_households
merge-AreApart net now [] kept cache h = h
merge-AreApart net now (s ∷ ss) kept cache h =
    merge-AreApart net now ss _ _ (kept_or (is_duplicate net s kept) refl)
  where
    kept_or :
        (b : Bool)
        → is_duplicate net s kept ≡ b
        → AreApart net (if not b then kept ++ s ∷ [] else kept)
    kept_or true e = h
    kept_or false e = AreApart-append net s kept h e

abbrev pub StartsWith : Session → List Session → Type 0
StartsWith s kept = (rest : List Session) × (kept ≡ s ∷ rest)

-- The loop only appends to what is kept.
merge-StartsWith :
    (net : Addresses) (now : ℕ) (s : Session) (ss kept : List Session) (cache : Recent)
    → StartsWith s kept
    → StartsWith s (merge_households net now ss kept cache).0
unfolding merge_households
merge-StartsWith net now s [] kept cache h = h
merge-StartsWith net now s (r ∷ ss) kept cache (rest, e) =
    merge-StartsWith net now s ss _ _ (kept_or (not (is_duplicate net r kept)))
  where
    kept_or : (b : Bool) → StartsWith s (if b then kept ++ r ∷ [] else kept)
    kept_or true = (rest ++ r ∷ [], rw e refl)
    kept_or false = (rest, e)

enrich-StartsWith :
    (cache : Recent) (s : Session) (ss : List Session)
    → s.session_key ≢ ""
    → StartsWith s (enrich cache (s ∷ ss) [])
unfolding enrich
enrich-StartsWith cache s ss key = elim (Bool-cases (str_eq s.session_key "")) [
  | inl t ↦ absurd (key ((eq_iff s.session_key "").0 t))
  | inr f ↦
      let previous = enrich_previous (remembered (household_user s) cache) (s.session_key ∷ []) in
      (previous.0 ++ enrich cache ss previous.1, rw f refl)
]

merge_first :
    (net : Addresses) (now : ℕ) (s : Session) (ss : List Session) (cache : Recent)
    → StartsWith s ss
    → StartsWith s (merge_households net now ss [] cache).0
unfolding merge_households is_duplicate
merge_first net now s ss cache (rest, e) =
    subst (λ (xs : List Session). StartsWith s (merge_households net now xs [] cache).0) (sym e)
      (merge-StartsWith net now s rest (s ∷ []) (remember now s cache) ([], refl))

-- Of the sessions of a user and those remembered, what is kept is pairwise of other households, and
-- the first session is among it if it has a key; no user has more than 25 remembered sessions,
-- if so before.
pub deduplicate_household_lem :
    (net : Addresses) (now : ℕ) (s : Session) (ss : List Session) (cache : Recent)
    → IsBounded cache
    → s.session_key ≢ ""
    → let kept = deduplicate_household_sessions net now (s ∷ ss) cache in
      AreApart net kept.0 × IsBounded kept.1 × StartsWith s kept.0
unfolding deduplicate_household_sessions
deduplicate_household_lem net now s ss cache h key =
    let cleaned = cleanup_recent_session_cache now cache in
    (
      merge-AreApart net now (enrich cleaned (s ∷ ss) []) [] cleaned tt,
      merge-IsBounded net now (enrich cleaned (s ∷ ss) []) [] cleaned
          (cleanup-IsBounded now cache h),
      merge_first net now s (enrich cleaned (s ∷ ss) []) cleaned
          (enrich-StartsWith cleaned s ss key),
    )
