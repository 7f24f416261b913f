-- ===== src/Enforcement/Stops.antt =====
-- app/tasks/stream_enforcer.py, `run`: which session is stopped for a violation.
use vodum.Common.{
  ℕ, ◌+◌, ◌≡◌, ◌⊎◌, refl, false, Option, none, some, Bool-cases, Option-cases, inl, inr, ◌∙◌, sym,
  ap, ap₂,
}
use vodum.Policies.{Session, Violation, pick_kill_target}
use vodum.Enforcement.Rules.{StreamPolicy, Caches}
use vodum.Enforcement.Evaluate.{is_strict_expired_subscription_policy}
use vodum.Enforcement.Run.{Outside, World, recheck_delay_seconds}
use vodum.Enforcement.Enforce.{
  warn_once, annoy_target, stop_confirmed, act_on, recheck_at, second_look, enforce_target, enforce,
}
use vodum.Enforcement.Calls.{
  is_stop, is_stop_of, stops, stops_of, IsQuiet, warn_once-IsQuiet, annoy_target-count,
  kill_target-count, own_stop,
}

-- What `stop_confirmed` does: nothing, or one stop of the session that was picked.
module _ (o : Outside) (p : StreamPolicy) (v again : Violation) (w : World) where
  stop_confirmed_lem :
      (picked : Option Session)
      → (stops (stop_confirmed o p v again picked w) ≡ stops w)
        ⊎ ((t : Session) × (picked ≡ some t)
            × (stops (stop_confirmed o p v again picked w) ≡ stops w + 1)
            × (stops_of again.server_id t.session_key (stop_confirmed o p v again picked w)
                ≡ stops_of again.server_id t.session_key w + 1))
  unfolding stop_confirmed
  stop_confirmed_lem none = inl refl
  stop_confirmed_lem (some t) = elim (Bool-cases (o.has_server w.clock again.server_id)) [
    | inr absent ↦ inl (rw absent refl)
    | inl there ↦
        let annoyed = annoy_target o again t w in
        let own = is_stop_of again.server_id t.session_key in
        inr (
          t,
          refl,
          rw there (
              kill_target-count is_stop o p again t v.user_id v.actor annoyed refl refl
              ∙ ap (λ (n : ℕ). n + 1) (annoy_target-count o again t is_stop (λ n k. refl) w)),
          rw there (
              kill_target-count own o p again t v.user_id v.actor annoyed refl (own_stop again t)
              ∙ ap (λ (n : ℕ). n + 1) (annoy_target-count o again t own (λ n k. refl) w)),
        )
  ]

-- The second look found the violation again, the session that is picked from it now was stopped, on
-- the server that it names now, and nothing else was.
abbrev pub IsConfirmedStop : Outside → StreamPolicy → Violation → World → World → Type 0
IsConfirmedStop o p v w u =
    (again : Violation) × (t : Session) × ((recheck_at o p v w.clock w.caches).0 ≡ some again)
    × (pick_kill_target again.sessions again.selector ≡ some t)
    × (stops u ≡ stops w + 1)
    × (stops_of again.server_id t.session_key u ≡ stops_of again.server_id t.session_key w + 1)

module _ (o : Outside) (p : StreamPolicy) (v : Violation) where
  second_look_lem :
      (w : World)
      → (stops (second_look o p v w) ≡ stops w) ⊎ IsConfirmedStop o p v w (second_look o p v w)
  unfolding second_look act_on
  second_look_lem w =
      let seen = recheck_at o p v w.clock w.caches in
      let now = record w { clock = w.clock + recheck_delay_seconds; caches = seen.1 } in
      elim (Option-cases seen.0) [
        | inl e ↦ inl (rw e refl)
        | inr (again, e) ↦
            elim (stop_confirmed_lem o p v again now
              (pick_kill_target again.sessions again.selector)) [
                | inl same ↦ inl (rw e same)
                | inr (t, picked, once, own) ↦ inr (again, t, e, picked, rw e once, rw e own)
              ]
      ]

  -- The same, from the world before the warning.
  IsConfirmedStop-before :
      (w u x : World) → IsQuiet w u → IsConfirmedStop o p v u x → IsConfirmedStop o p v w x
  IsConfirmedStop-before w u x quiet (again, t, found, picked, once, own) = (
    again,
    t,
    ap₂ (λ (n : ℕ) (c : Caches). (recheck_at o p v n c).0) (sym quiet.same_clock)
          (sym quiet.same_caches)
        ∙ found,
    picked,
    once ∙ ap (λ (n : ℕ). n + 1) quiet.same_stops,
    own ∙ ap (λ (n : ℕ). n + 1) (quiet.same_own again.server_id t.session_key),
  )

  enforce_target_lem :
      (picked : Option Session) (w : World)
      → is_strict_expired_subscription_policy p ≡ false
      → (stops (enforce_target o p v picked w).0 ≡ stops w)
        ⊎ IsConfirmedStop o p v w (enforce_target o p v picked w).0
  unfolding enforce_target
  enforce_target_lem none w h = inl refl
  enforce_target_lem (some t) w h =
      let warned = warn_once o p v t w in
      let quiet = warn_once-IsQuiet o p v t w in
      elim (Bool-cases warned.1) [
        | inr failed ↦ inl (rw (h, failed) quiet.same_stops)
        | inl sent ↦ elim (second_look_lem warned.0) [
          | inl same ↦ inl (rw (h, sent) (same ∙ quiet.same_stops))
          | inr stop ↦ inr (
              rw (h, sent)
                (IsConfirmedStop-before w warned.0 (second_look o p v warned.0) quiet stop))
        ]
      ]

  -- For a violation of any policy but that of an expired subscription, either no session is stopped,
  -- or exactly one: then the recheck, 45 seconds later, has found a violation again, and it is the
  -- session that is picked from the one it found, on the server which that one names.
  pub enforce_confirmed :
      (w : World)
      → is_strict_expired_subscription_policy p ≡ false
      → (stops (enforce o p v w).0 ≡ stops w) ⊎ IsConfirmedStop o p v w (enforce o p v w).0
  unfolding enforce
  enforce_confirmed w h = elim (Bool-cases (o.has_server w.clock v.server_id)) [
    | inr absent ↦ inl (rw absent refl)
    | inl there ↦ elim (enforce_target_lem (pick_kill_target v.sessions v.selector) w h) [
      | inl same ↦ inl (rw there same)
      | inr stop ↦ inr (rw there stop)
    ]
  ]
