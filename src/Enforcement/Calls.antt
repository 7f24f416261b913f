-- ===== src/Enforcement/Calls.antt =====
-- app/tasks/stream_enforcer.py, `run`: the calls that each step adds.
use vodum.Common.{
  ℕ, zero, suc, ◌+◌, ◌-◌, ◌≡◌, refl, Bool, true, false, ◌&&◌, Option, [], ◌∷◌, String, str_eq,
  eq_iff, leb, ◌==◌, ==_iff, count_rows, count_rows-append, arith, Bool-cases, inl, inr, ◌∙◌,
}
use vodum.State.{Provider}
use vodum.AutoEnable.{is_provider}
use vodum.Policies.{Session, Violation}
use vodum.Enforcement.Rules.{StreamPolicy}
use vodum.Enforcement.Store.{already_warned_recently}
use vodum.Enforcement.Run.{
  Outside, World, Outcome, Call, wait, call, jellyfin_session_id_from_target, finish_kill,
  kill_target, pre_kill_duration_seconds, pre_kill_interval_seconds,
}
use vodum.Enforcement.Enforce.{
  record_warning, settle_warning, warn_target, warn_once, min, go_on, pre_kill, pre_kill_fuel,
  annoy_target,
}

abbrev pub is_stop : Call → Bool
is_stop (Call.stop n k) = true
is_stop (Call.message n k) = false
is_stop (Call.notification p t) = false

abbrev pub is_stop_of : ℕ → String → Call → Bool
is_stop_of n k (Call.stop m j) = m == n && str_eq j k
is_stop_of n k (Call.message m j) = false
is_stop_of n k (Call.notification p t) = false

-- How many calls of a world have stopped a session.
abbrev pub stops : World → ℕ
stops w = count_rows is_stop w.calls

abbrev pub stops_of : ℕ → String → World → ℕ
stops_of n k w = count_rows (is_stop_of n k) w.calls

-- The same place for the next step: no stop, no time and no change of the caches.
pub record IsQuiet (w u : World) : Type 0 where
  pub same_stops : stops u ≡ stops w
  pub same_own : (n : ℕ) (k : String) → stops_of n k u ≡ stops_of n k w
  pub same_clock : u.clock ≡ w.clock
  pub same_caches : u.caches ≡ w.caches

record_warning-IsQuiet :
    (p : StreamPolicy) (v : Violation) (t : Session) (w : World)
    → IsQuiet w (record_warning p v t w)
unfolding record_warning
record_warning-IsQuiet p v t w = record {
  same_stops = refl;
  same_own = λ n k. refl;
  same_clock = refl;
  same_caches = refl;
}

message-IsQuiet : (n : ℕ) (k : String) (w : World) → IsQuiet w (call (Call.message n k) w)
message-IsQuiet n k w = record {
  same_stops = rw (count_rows-append is_stop w.calls (Call.message n k ∷ [])) (omega arith);
  same_own =
      λ m j. rw (count_rows-append (is_stop_of m j) w.calls (Call.message n k ∷ [])) (omega arith);
  same_clock = refl;
  same_caches = refl;
}

pub IsQuiet-trans : {w u x : World} → IsQuiet w u → IsQuiet u x → IsQuiet w x
IsQuiet-trans h k = record {
  same_stops = k.same_stops ∙ h.same_stops;
  same_own = λ n j. k.same_own n j ∙ h.same_own n j;
  same_clock = k.same_clock ∙ h.same_clock;
  same_caches = k.same_caches ∙ h.same_caches;
}

IsQuiet-refl : (w : World) → IsQuiet w w
IsQuiet-refl w = record {
  same_stops = refl;
  same_own = λ n k. refl;
  same_clock = refl;
  same_caches = refl;
}

settle_warning-IsQuiet :
    (x : Outcome) (p : StreamPolicy) (v : Violation) (t : Session) (w : World)
    → IsQuiet w (settle_warning x p v t w).0
unfolding settle_warning
settle_warning-IsQuiet Outcome.done p v t w = record_warning-IsQuiet p v t w
settle_warning-IsQuiet Outcome.refused p v t w = record_warning-IsQuiet p v t w
settle_warning-IsQuiet Outcome.raised p v t w = IsQuiet-refl w

module _ (o : Outside) (p : StreamPolicy) (v : Violation) (t : Session) (w : World) where
  warn_target-IsQuiet : IsQuiet w (warn_target o p v t w).0
  unfolding warn_target
  warn_target-IsQuiet =
      let key = jellyfin_session_id_from_target t in
      let sent = call (Call.message v.server_id key) w in
      elim (Bool-cases (is_provider Provider.jellyfin v.provider)) [
        | inr other ↦ rw other (record_warning-IsQuiet p v t w)
        | inl jellyfin ↦ rw jellyfin (
            IsQuiet-trans (message-IsQuiet v.server_id key w)
              (settle_warning-IsQuiet (o.send_session_message w.clock v.server_id key) p v t sent))
      ]

  pub warn_once-IsQuiet : IsQuiet w (warn_once o p v t w).0
  unfolding warn_once
  warn_once-IsQuiet =
      elim (Bool-cases
        (already_warned_recently w.clock p.id v.server_id v.user_id v.actor 5 w.rows)) [
          | inl warned ↦ rw warned (IsQuiet-refl w)
          | inr unwarned ↦ rw unwarned warn_target-IsQuiet
        ]

go_on-count :
    (test : Call → Bool) (n : ℕ) (x : Outcome) (sent rest : World)
    → count_rows test sent.calls ≡ n
    → count_rows test rest.calls ≡ n
    → count_rows test (go_on x sent rest).calls ≡ n
go_on-count test n Outcome.raised sent rest h k = h
go_on-count test n Outcome.done sent rest h k = k
go_on-count test n Outcome.refused sent rest h k = k

-- The messages before a stop are messages only.
pre_kill-count :
    (o : Outside) (n : ℕ) (k : String) (test : Call → Bool)
    → test (Call.message n k) ≡ false
    → (fuel elapsed : ℕ) (w : World)
    → count_rows test (pre_kill o n k fuel elapsed w).calls ≡ count_rows test w.calls
unfolding pre_kill
pre_kill-count o n k test out zero elapsed w = refl
pre_kill-count o n k test out (suc fuel) elapsed w =
    let sent = call (Call.message n k) w in
    let sleep_for = min pre_kill_interval_seconds (pre_kill_duration_seconds - elapsed) in
    let same : count_rows test sent.calls ≡ count_rows test w.calls =
      rw (count_rows-append test w.calls (Call.message n k ∷ [])) (rw out (omega arith)) in
    let later = pre_kill-count o n k test out fuel (elapsed + sleep_for) (wait sleep_for sent) in
    elim (Bool-cases (leb pre_kill_duration_seconds elapsed)) [
      | inl over ↦ rw over refl
      | inr not_over ↦ rw not_over (
          go_on-count test (count_rows test w.calls) (o.send_session_message w.clock n k) sent
            (pre_kill o n k fuel (elapsed + sleep_for) (wait sleep_for sent)) same (later ∙ same))
    ]

pub annoy_target-count :
    (o : Outside) (v : Violation) (t : Session) (test : Call → Bool)
    → ((n : ℕ) (k : String) → test (Call.message n k) ≡ false)
    → (w : World) → count_rows test (annoy_target o v t w).calls ≡ count_rows test w.calls
unfolding annoy_target
annoy_target-count o v t test out w = elim (Bool-cases (is_provider Provider.jellyfin v.provider)) [
  | inl y ↦ rw y (
      pre_kill-count o v.server_id (jellyfin_session_id_from_target t) test
        (out v.server_id (jellyfin_session_id_from_target t)) pre_kill_fuel 0 w)
  | inr n ↦ rw n refl
]

-- A stop is one call, whatever comes of it.
finish_kill-count :
    (test : Call → Bool) (x : Outcome) (p : StreamPolicy) (v : Violation) (t : Session)
    (user : Option ℕ) (external : String) (w : World)
    → test (Call.notification p t) ≡ false
    → count_rows test (finish_kill x p v t user external w).calls ≡ count_rows test w.calls
unfolding finish_kill
finish_kill-count test Outcome.done p v t user external w out =
    rw (count_rows-append test w.calls (Call.notification p t ∷ [])) (rw out (omega arith))
finish_kill-count test Outcome.refused p v t user external w out = refl
finish_kill-count test Outcome.raised p v t user external w out = refl

pub kill_target-count :
    (test : Call → Bool) (o : Outside) (p : StreamPolicy) (v : Violation) (t : Session)
    (user : Option ℕ) (external : String) (w : World)
    → test (Call.notification p t) ≡ false
    → test (Call.stop v.server_id t.session_key) ≡ true
    → count_rows test (kill_target o p v t user external w).calls ≡ count_rows test w.calls + 1
unfolding kill_target
kill_target-count test o p v t user external w out own =
    finish_kill-count test (o.terminate_session w.clock v.server_id t.session_key) p v t user
      external (call (Call.stop v.server_id t.session_key) w) out
    ∙ rw (count_rows-append test w.calls (Call.stop v.server_id t.session_key ∷ []))
        (rw own (omega arith))

pub own_stop :
    (v : Violation) (t : Session)
    → is_stop_of v.server_id t.session_key (Call.stop v.server_id t.session_key) ≡ true
own_stop v t = ground (arith, ==_iff v.server_id v.server_id, eq_iff t.session_key t.session_key)
