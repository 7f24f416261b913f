-- ===== src/Enforcement/Run.antt =====
-- app/tasks/stream_enforcer.py, `run`: the violations of all policies, and for each of them the warning,
-- the second look and the stop. Time passes in the waits of the code. The calls of the servers, and
-- what the other tasks write to the tables read here, are the parameter `Outside`.
use vodum.Common.{ℕ, ◌+◌, Bool, true, false, Option, List, [], ◌∷◌, ◌++◌, String, if◌then◌else◌}
use vodum.Policies.{Session, Violation, Addresses, has_text}
use vodum.Enforcement.Rules.{StreamPolicy, Caches, Context}
use vodum.Enforcement.Store.{StateRow, Enforced, Action, upsert_state, log_enforcement}
use vodum.Enforcement.Boosting.{Boost}
use vodum.Enforcement.Load.{
  LiveRow, live_window_seconds, load_live_sessions, load_user_stream_overrides,
}

-- What a call of a provider comes to.
pub data Outcome : Type 0 where
  done refused raised : Outcome

pub record Outside : Type 0 where
  pub net : Addresses
  pub policies : List StreamPolicy
  pub users : List (ℕ × Option ℕ)
  pub rows : ℕ → List LiveRow
  pub has_server : ℕ → ℕ → Bool
  pub send_session_message : ℕ → ℕ → String → Outcome
  pub terminate_session : ℕ → ℕ → String → Outcome

-- The calls that leave the program: a server with a session, and the notification of a stop.
pub data Call : Type 0 where
  message stop : ℕ → String → Call
  notification : StreamPolicy → Session → Call

pub record World : Type 0 where
  pub clock : ℕ
  pub caches : Caches
  pub rows : List StateRow
  pub log : List Enforced
  pub boost : Boost
  pub calls : List Call

abbrev pub recheck_delay_seconds : ℕ
recheck_delay_seconds = 45

abbrev pub pre_kill_duration_seconds : ℕ
pre_kill_duration_seconds = 60

abbrev pub pre_kill_interval_seconds : ℕ
pre_kill_interval_seconds = 10

unfoldable pub live_at : Outside → ℕ → ℕ → List Session
live_at o stable_seconds now =
    load_live_sessions live_window_seconds stable_seconds now (o.rows now)

unfoldable pub context_at : Outside → ℕ → Context
context_at o now = record { net = o.net; overrides = load_user_stream_overrides o.users; now = now }

abbrev pub wait : ℕ → World → World
wait n w = record w { clock = w.clock + n }

abbrev pub call : Call → World → World
call c w = record w { calls = w.calls ++ c ∷ [] }

-- `jellyfin_session_id_from_target`, of app/core/stream_policy_utils.py
unfoldable pub jellyfin_session_id_from_target : Session → String
jellyfin_session_id_from_target t = if has_text t.json_id then t.json_id else t.session_key

abbrev pub log_action :
    StreamPolicy → Violation → Session → Option ℕ → String → Action → World → World
log_action p v t user external action w = record w {
  log =
      log_enforcement
        (record {
          policy_id = p.id;
          server_id = v.server_id;
          provider = v.provider;
          session_key = t.session_key;
          vodum_user_id = user;
          external_user_id = external;
          action = action;
          created_at = w.clock;
        })
        w.log;
}

abbrev pub note_state : StreamPolicy → Violation → Option ℕ → String → Bool → Bool → World → World
note_state p v user external warned killed w = record w {
  rows = upsert_state w.clock p.id v.server_id user external warned killed w.rows;
}

-- `_kill_session` and what follows it, up to `_upsert_state`; the violation whose server is stopped
-- may be another than the one whose user is noted. An exception skips the rest.
unfoldable pub finish_kill :
    Outcome → StreamPolicy → Violation → Session → Option ℕ → String → World → World
finish_kill Outcome.done p v t user external w =
    note_state p v user external false true
      (log_action p v t user external Action.kill (call (Call.notification p t) w))
finish_kill Outcome.refused p v t user external w =
    note_state p v user external false false (log_action p v t user external Action.kill_failed w)
finish_kill Outcome.raised p v t user external w = w

unfoldable pub kill_target :
    Outside → StreamPolicy → Violation → Session → Option ℕ → String → World → World
kill_target o p v t user external w =
    finish_kill (o.terminate_session w.clock v.server_id t.session_key) p v t user external
      (call (Call.stop v.server_id t.session_key) w)
