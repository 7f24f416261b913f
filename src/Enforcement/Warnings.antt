-- ===== src/Enforcement/Warnings.antt =====
-- app/tasks/stream_enforcer.py, `run`: the warning of a target and its record.
use vodum.Common.{
  ℕ, ◌+◌, ◌*◌, ◌≤◌, ◌≡◌, refl, true, false, leb, Bool-cases, inl, inr, ◌∙◌, ap, arith,
}
use vodum.State.{Provider}
use vodum.AutoEnable.{is_provider}
use vodum.Policies.{Session, Violation}
use vodum.Enforcement.Rules.{StreamPolicy}
use vodum.Enforcement.Store.{state_key, already_warned_recently}
use vodum.Enforcement.Run.{Outside, World, Outcome, Call, call, jellyfin_session_id_from_target}
use vodum.Enforcement.Enforce.{record_warning, settle_warning, warn_target, warn_once}
use vodum.Enforcement.Memory.{IsUnique, memory, is_warned_since, upsert_state_refines, note-warned}

-- After a warning the table knows its time.
record_warning-warned :
    (p : StreamPolicy) (v : Violation) (t : Session) (w : World) (later : ℕ)
    → IsUnique w.rows
    → already_warned_recently later p.id v.server_id v.user_id v.actor 5
        (record_warning p v t w).rows
      ≡ leb later (w.clock + 60 * 5)
unfolding record_warning
record_warning-warned p v t w later unique =
    let k = state_key p.id v.server_id v.user_id v.actor in
    let refines =
      upsert_state_refines w.clock p.id v.server_id v.user_id v.actor true false w.rows unique in
    refines.2 later 5
    ∙ ap (is_warned_since later 5) (refines.1 k)
    ∙ note-warned w.clock later 5 k false (memory w.rows)

settle_warning-warned :
    (x : Outcome) (p : StreamPolicy) (v : Violation) (t : Session) (w : World) (later : ℕ)
    → IsUnique w.rows
    → (settle_warning x p v t w).1 ≡ true
    → already_warned_recently later p.id v.server_id v.user_id v.actor 5
        (settle_warning x p v t w).0.rows
      ≡ leb later (w.clock + 60 * 5)
unfolding settle_warning
settle_warning-warned Outcome.done p v t w later unique h =
    record_warning-warned p v t w later unique
settle_warning-warned Outcome.refused p v t w later unique h =
    record_warning-warned p v t w later unique
settle_warning-warned Outcome.raised p v t w later unique h = absurd (cc)

warn_target-warned :
    (o : Outside) (p : StreamPolicy) (v : Violation) (t : Session) (w : World) (later : ℕ)
    → IsUnique w.rows
    → (warn_target o p v t w).1 ≡ true
    → already_warned_recently later p.id v.server_id v.user_id v.actor 5
        (warn_target o p v t w).0.rows
      ≡ leb later (w.clock + 60 * 5)
unfolding warn_target
warn_target-warned o p v t w later unique h =
    let key = jellyfin_session_id_from_target t in
    elim (Bool-cases (is_provider Provider.jellyfin v.provider)) [
      | inl y ↦ rw y (
          settle_warning-warned (o.send_session_message w.clock v.server_id key) p v t
            (call (Call.message v.server_id key) w) later unique (rw y at h))
      | inr n ↦ rw n (record_warning-warned p v t w later unique)
    ]

-- Within five minutes of a warning that did not fail, its policy, server and user get no other,
-- whichever session is picked.
pub warned_once :
    (o : Outside) (p : StreamPolicy) (v : Violation) (t u : Session) (w : World) (later : ℕ)
    → IsUnique w.rows
    → (warn_target o p v t w).1 ≡ true
    → later ≤ w.clock + 300
    → let after = record (warn_target o p v t w).0 { clock = later } in
      warn_once o p v u after ≡ (after, true)
unfolding warn_once
warned_once o p v t u w later unique sent soon =
    let known = warn_target-warned o p v t w later unique sent in
    let young : leb later (w.clock + 60 * 5) ≡ true = ground arith in rw (known, young) refl
