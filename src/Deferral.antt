-- ===== src/Deferral.antt =====
-- app/core/policy_transition_grace.py: how long a violation is deferred.
use vodum.Common.{
  ℕ, ◌+◌, ◌-◌, ◌≤◌, ◌<◌, ◌≡◌, Bool, true, false, not, ◌||◌, none, some, List, [], ◌∷◌, ◌++◌, String,
  eq_iff, ltb, leb, ◌==◌, find_row, delete_rows, arith, Bool-cases, Option-cases, inl, inr, All,
  find_row-All, subst, sym,
}
use vodum.Policies.{
  Entry, Overage, same_key_iff, stream_switch_grace_seconds, cache_retention_seconds, has_entry,
  is_recent, latest_start, probable_switch_identity, defer_seen, defer_identity,
  should_defer_stream_violation,
}

find_row-append :
    (p : Entry → Bool) (es : List Entry) (e : Entry)
    → find_row p es ≡ none
    → p e ≡ true
    → find_row p (es ++ e ∷ []) ≡ some e
find_row-append p [] e n h = ground arith
find_row-append p (f ∷ es) e n h = ground (arith, find_row-append p es e)

-- The first entry that fits is still the first if a deletion spares it.
find_row-delete :
    (p q : Entry → Bool) (es : List Entry) (e : Entry)
    → find_row p es ≡ some e
    → q e ≡ false
    → find_row p (delete_rows q es) ≡ some e
find_row-delete p q [] e h k = cc
find_row-delete p q (f ∷ es) e h k = elim (Bool-cases (p f)) [
  | inl fits ↦
      let same : f ≡ e = ground arith in
      let spared : q f ≡ false = subst (λ (x : Entry). q x ≡ false) (sym same) k in
      ground (arith, spared)
  | inr other ↦ ground (arith, find_row-delete p q es e (rw other at h) k)
]

All-delete :
    (P : Entry → Type 0) (q : Entry → Bool) (es : List Entry) → All P es → All P (delete_rows q es)
All-delete P q [] h = tt
All-delete P q (e ∷ es) h = elim (Bool-cases (q e)) [
  | inl gone ↦ rw gone (All-delete P q es h.1)
  | inr stays ↦ rw stays (h.0, All-delete P q es h.1)
]

-- What a deferral leaves behind: an entry of less than five minutes.
abbrev IsOpen : Overage → ℕ → String → List Entry → Type 0
IsOpen r now i seen =
    (e : Entry) × (find_row (has_entry r i) seen ≡ some e)
    × (now < e.first_seen + stream_switch_grace_seconds)
    × (e.first_seen ≤ now)

defer_seen-IsOpen :
    (r : Overage) (now : ℕ) (i : String) (seen : List Entry)
    → All (λ e. e.first_seen ≤ now) seen
    → (defer_seen r now i (find_row (has_entry r i) seen) seen).0 ≡ true
    → IsOpen r now i (defer_seen r now i (find_row (has_entry r i) seen) seen).1
unfolding defer_seen
defer_seen-IsOpen r now i seen past h = elim (Option-cases (find_row (has_entry r i) seen)) [
  | inr (e, found) ↦ rw found (
      let young : ltb (now - e.first_seen) stream_switch_grace_seconds ≡ true = rw found at h in
      let before =
        find_row-All (λ (x : Entry). x.first_seen ≤ now) (has_entry r i) seen e past found in
      (e, found, ground (arith, young), before))
  | inl missing ↦ elim (Bool-cases (is_recent now (latest_start i r.sessions))) [
    | inl recent ↦
        rw (missing, recent)
          (
            record {
              policy_id = r.policy_id;
              user_key = r.user_key;
              identity = i;
              first_seen = now;
            },
            find_row-append (has_entry r i) seen _ missing
                (ground (arith, same_key_iff r.user_key r.user_key, eq_iff i i)),
            omega arith,
            omega arith,
          )
    | inr stale ↦ let no : false ≡ true = rw (missing, stale) at h in absurd (cc)
  ]
]

-- The same violation again, five minutes or more after a deferral.
defer_seen_later :
    (r : Overage) (now now' : ℕ) (i : String) (seen : List Entry)
    → IsOpen r now i seen
    → now + 300 ≤ now'
    → now' ≤ now + 3300
    → let kept = delete_rows (λ e. ltb cache_retention_seconds (now' - e.first_seen)) seen in
      (defer_seen r now' i (find_row (has_entry r i) kept) kept).0 ≡ false
unfolding defer_seen
defer_seen_later r now now' i seen (e, found, young, past) h k =
    let old = λ (x : Entry). ltb cache_retention_seconds (now' - x.first_seen) in
    let spared : old e ≡ false = ground (arith, young, past) in
    rw (find_row-delete (has_entry r i) old seen e found spared) (ground (arith, young, past))

-- The grace is bounded: where the cache holds no time after now, a violation that is deferred now is
-- not deferred when it is found again five minutes later or more, up to 55 minutes.
pub grace_ends :
    (r : Overage) (now now' : ℕ) (seen : List Entry)
    → All (λ e. e.first_seen ≤ now) seen
    → (should_defer_stream_violation r now seen).0 ≡ true
    → now + 300 ≤ now'
    → now' ≤ now + 3300
    → (should_defer_stream_violation r now' (should_defer_stream_violation r now seen).1).0 ≡ false
unfolding should_defer_stream_violation defer_identity
grace_ends r now now' seen past deferred h k =
    elim (Bool-cases (leb r.current_count r.limit || not (r.current_count == r.limit + 1))) [
      | inl outside ↦ let no : false ≡ true = rw outside at deferred in absurd (cc)
      | inr one_over ↦ elim (Option-cases (probable_switch_identity r.sessions)) [
        | inl unlikely ↦ let no : false ≡ true = rw (one_over, unlikely) at deferred in absurd (cc)
        | inr (i, switch) ↦
            let kept = delete_rows (λ e. ltb cache_retention_seconds (now - e.first_seen)) seen in
            rw (one_over, switch)
              (defer_seen_later r now now' i _
                (defer_seen-IsOpen r now i kept (All-delete _ _ seen past)
                  (rw (one_over, switch) at deferred))
                h k)
      ]
    ]
