-- ===== src/Targets.antt =====
-- app/core/stream_policy_utils.py, `pick_kill_target`, and stream_violation_recheck.py: which
-- session is stopped, and which violation counts as the same.
use vodum.Common.{
  ◌≤◌, ◌≡◌, ◌≢◌, ◌⊎◌, refl, true, false, ◌&&◌, Option, none, some, List, [], ◌∷◌, ltb, ◌==◌, All,
  find_row, find_row_fits, find_row-none, count_rows, where_rows, arith, if◌then◌else◌, Bool-cases,
  inl, inr, subst, sym,
}
use vodum.Policies.{
  Session, session_started_ts, newest, oldest, pick_kill_target, Violation, is_same_actor,
  is_synthetic, recheck_elsewhere, select_rechecked_violation,
}

abbrev pub IsOneOf : Session → List Session → Type 0
IsOneOf t [] = ⊥
IsOneOf t (s ∷ ss) = (s ≡ t) ⊎ IsOneOf t ss

IsOneOf-full : (t : Session) (ss : List Session) → IsOneOf t ss → ss ≢ []
IsOneOf-full t [] m = absurd m
IsOneOf-full t (s ∷ ss) m = λ e. cc

-- A choice among sessions: none only if there is none, and else one of them that starts no
-- earlier (no later) than any.
abbrev pub IsNewest : List Session → Option Session → Type 0
IsNewest ss none = ss ≡ []
IsNewest ss (some t) = IsOneOf t ss × All (λ s. session_started_ts s ≤ session_started_ts t) ss

abbrev pub IsOldest : List Session → Option Session → Type 0
IsOldest ss none = ss ≡ []
IsOldest ss (some t) = IsOneOf t ss × All (λ s. session_started_ts t ≤ session_started_ts s) ss

All-map :
    (P Q : Session → Type 0)
    → ((s : Session) → P s → Q s)
    → (ss : List Session) → All P ss
    → All Q ss
All-map P Q f [] h = tt
All-map P Q f (s ∷ ss) h = (f s h.0, All-map P Q f ss h.1)

newest-IsNewest : (ss : List Session) → IsNewest ss (newest ss)
unfolding newest
newest-IsNewest [] = refl
newest-IsNewest (s ∷ ss) = go (newest ss) (newest-IsNewest ss)
  where
    go :
        (r : Option Session)
        → IsNewest ss r
        → IsNewest (s ∷ ss) (elim r [
          | none ↦ some s
          | some t ↦ if ltb (session_started_ts s) (session_started_ts t) then some t else some s
        ])
    go none e =
        subst (λ (l : List Session). IsNewest (s ∷ l) (some s)) (sym e)
          (inl refl, (omega arith, tt))
    go (some t) (m, h) = elim (Bool-cases (ltb (session_started_ts s) (session_started_ts t))) [
      | inl later ↦ rw later (inr m, (ground (arith, later), h))
      | inr no_later ↦
          rw no_later
            (inl refl, (omega arith, All-map _ _ (λ u le. ground (arith, no_later, le)) ss h))
    ]

oldest-IsOldest : (ss : List Session) → IsOldest ss (oldest ss)
unfolding oldest
oldest-IsOldest [] = refl
oldest-IsOldest (s ∷ ss) = go (oldest ss) (oldest-IsOldest ss)
  where
    go :
        (r : Option Session)
        → IsOldest ss r
        → IsOldest (s ∷ ss) (elim r [
          | none ↦ some s
          | some t ↦ if ltb (session_started_ts t) (session_started_ts s) then some t else some s
        ])
    go none e =
        subst (λ (l : List Session). IsOldest (s ∷ l) (some s)) (sym e)
          (inl refl, (omega arith, tt))
    go (some t) (m, h) = elim (Bool-cases (ltb (session_started_ts t) (session_started_ts s))) [
      | inl earlier ↦ rw earlier (inr m, (ground (arith, earlier), h))
      | inr no_earlier ↦
          rw no_earlier
            (inl refl, (omega arith, All-map _ _ (λ u le. ground (arith, no_earlier, le)) ss h))
    ]

-- Which candidate is meant by `found` on the same server, and `c` in the end.
abbrev pub IsRechecked : Violation → List Violation → Violation → Type 0
IsRechecked previous cs c =
    (is_same_actor previous c ≡ true)
    × ((c.server_id ≡ previous.server_id)
        ⊎ ((is_synthetic previous.actor ≡ false)
            × (count_rows (λ d. is_same_actor previous d && d.server_id == previous.server_id) cs
                ≡ 0)))

recheck_lem :
    (previous c : Violation) (cs : List Violation) (found : Option Violation)
    → find_row (λ d. is_same_actor previous d && d.server_id == previous.server_id) cs ≡ found
    → recheck_elsewhere previous cs found ≡ some c
    → IsRechecked previous cs c
unfolding recheck_elsewhere
recheck_lem previous c cs (some d) f e =
    let same : d ≡ c = cc in
    let here = λ (x : Violation). is_same_actor previous x && x.server_id == previous.server_id in
    let fits = find_row_fits here cs d f in
    subst (λ (x : Violation). IsRechecked previous cs x) same
      (ground (arith, fits), inl (ground (arith, fits)))
recheck_lem previous c cs none f e = elim (Bool-cases (is_synthetic previous.actor)) [
  | inl bound ↦ let no : none ≡ some c = rw bound at e in absurd (cc)
  | inr free ↦ (
    find_row_fits (is_same_actor previous) cs c (rw free at e),
    inr (
      free,
      (find_row-none (λ d. is_same_actor previous d && d.server_id == previous.server_id) cs).0 f,
    ),
  )
]

-- A violation that counts as the same has the same kind and actor. One on the same server is taken
-- first; another one only where no candidate is on that server, and never for an actor that is bound
-- to its server.
pub select_rechecked_lem :
    (previous c : Violation) (cs : List Violation)
    → select_rechecked_violation previous cs ≡ some c
    → IsRechecked previous cs c
unfolding select_rechecked_violation
select_rechecked_lem previous c cs e = recheck_lem previous c cs _ refl e

-- Which session is stopped: with "kill_oldest" the oldest; with "kill_transcoding_first" the newest
-- of those that are transcoded, if there is one; and else the newest of all.
pub pick_kill_target_lem :
    (ss : List Session)
    → let transcoded = where_rows (λ (s : Session). s.is_transcode) ss in
      IsOldest ss (pick_kill_target ss "kill_oldest")
      × IsNewest ss (pick_kill_target ss "kill_newest")
      × ((IsNewest transcoded (pick_kill_target ss "kill_transcoding_first") × (transcoded ≢ []))
          ⊎ ((transcoded ≡ []) × IsNewest ss (pick_kill_target ss "kill_transcoding_first")))
unfolding pick_kill_target
pick_kill_target_lem ss = (
  oldest-IsOldest ss,
  newest-IsNewest ss,
  transcoding (newest (where_rows (λ s. s.is_transcode) ss))
      (newest-IsNewest (where_rows (λ s. s.is_transcode) ss)),
)
  where
    transcoding :
        (r : Option Session)
        → IsNewest (where_rows (λ (s : Session). s.is_transcode) ss) r
        → (IsNewest
              (where_rows (λ (s : Session). s.is_transcode) ss)
              (elim r [ some s ↦ some s | none ↦ newest ss ])
            × (where_rows (λ (s : Session). s.is_transcode) ss ≢ []))
          ⊎ ((where_rows (λ (s : Session). s.is_transcode) ss ≡ [])
              × IsNewest ss (elim r [ some s ↦ some s | none ↦ newest ss ]))
    transcoding none h = inr (h, newest-IsNewest ss)
    transcoding (some t) h = inl (h, IsOneOf-full t (where_rows (λ s. s.is_transcode) ss) h.0)
