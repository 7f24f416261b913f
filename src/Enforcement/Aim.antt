-- ===== src/Enforcement/Aim.antt =====
-- app/tasks/stream_enforcer.py, `_evaluate_policy`: the server of a violation, and the session that
-- `run` will choose from it.
use vodum.Common.{
  ℕ, ◌≡◌, Option, none, some, List, [], ◌∷◌, String, str_eq, ltb, All, All-append, All-where_rows,
  where_rows, length, Bool-cases, Option-cases, inl, inr,
}
use vodum.Policies.{
  Session, Violation, oldest, newest, pick_kill_target, session_started_ts, number_keys,
}
use vodum.Enforcement.Rules.{server_violation, server_violations}

abbrev pub Holds : (Session → Type 0) → Option Session → Type 0
Holds P none = Unit {0}
Holds P (some t) = P t

module _ (P : Session → Type 0) where
  newest-All : (ss : List Session) → All P ss → Holds P (newest ss)
  unfolding newest
  newest-All [] h = tt
  newest-All (s ∷ ss) h = elim (Option-cases (newest ss)) [
    | inl e ↦ rw e h.0
    | inr (r, e) ↦
        let rest : P r = rw e at (newest-All ss h.1) in
        elim (Bool-cases (ltb (session_started_ts s) (session_started_ts r))) [
          | inl t ↦ rw (e, t) rest
          | inr f ↦ rw (e, f) h.0
        ]
  ]

  oldest-All : (ss : List Session) → All P ss → Holds P (oldest ss)
  unfolding oldest
  oldest-All [] h = tt
  oldest-All (s ∷ ss) h = elim (Option-cases (oldest ss)) [
    | inl e ↦ rw e h.0
    | inr (r, e) ↦
        let rest : P r = rw e at (oldest-All ss h.1) in
        elim (Bool-cases (ltb (session_started_ts r) (session_started_ts s))) [
          | inl t ↦ rw (e, t) rest
          | inr f ↦ rw (e, f) h.0
        ]
  ]

  pub pick_kill_target-All :
      (ss : List Session) (selector : String) → All P ss → Holds P (pick_kill_target ss selector)
  unfolding pick_kill_target
  pick_kill_target-All ss selector h = elim (Bool-cases (str_eq selector "kill_oldest")) [
    | inl t ↦ rw t (oldest-All ss h)
    | inr f ↦ elim (Bool-cases (str_eq selector "kill_transcoding_first")) [
      | inl t ↦
          let transcoding = where_rows (λ (s : Session). s.is_transcode) ss in
          elim (Option-cases (newest transcoding)) [
            | inl e ↦ rw (f, t, e) (newest-All ss h)
            | inr (r, e) ↦
                let picked : P r =
                  rw e at (newest-All transcoding (All-where_rows P (λ s. s.is_transcode) ss h)) in
                rw (f, t, e) picked
          ]
      | inr g ↦ rw (f, g) (newest-All ss h)
    ]
  ]

-- What `run` will choose from the violation's sessions stands on the violation's server.
abbrev pub IsAimed : Violation → Type 0
IsAimed v = Holds (λ t. t.server_id ≡ v.server_id) (pick_kill_target v.sessions v.selector)

server_violation-IsAimed :
    (kind actor selector : String) (server_id : ℕ) (ss : List Session)
    → All (λ s. s.server_id ≡ server_id) ss
    → All IsAimed (server_violation kind actor selector server_id ss)
server_violation-IsAimed kind actor selector server_id [] h = tt
server_violation-IsAimed kind actor selector server_id (s ∷ ss) h =
    (pick_kill_target-All (λ t. t.server_id ≡ server_id) (s ∷ ss) selector h, tt)

pub server_violations-IsAimed :
    (kind actor selector : String) (least : ℕ) (groups : List (ℕ × List Session))
    → All (λ (g : ℕ × List Session). All (λ s. s.server_id ≡ g.0) g.1) groups
    → All IsAimed (server_violations kind actor selector least groups)
unfolding server_violations
server_violations-IsAimed kind actor selector least [] h = tt
server_violations-IsAimed kind actor selector least ((n, ss) ∷ groups) h =
    elim (Bool-cases (ltb least (length ss))) [
      | inl t ↦ rw t (
          All-append IsAimed (server_violation kind actor selector n ss)
            (server_violations kind actor selector least groups)
            (server_violation-IsAimed kind actor selector n ss h.0)
            (server_violations-IsAimed kind actor selector least groups h.1))
      | inr f ↦ rw f (server_violations-IsAimed kind actor selector least groups h.1)
    ]
