-- ===== src/Media/Access.antt =====
-- app/core/media_jobs.py: the queue of access jobs. The table, the next key and SQLite's clock are
-- the state; SQLite does not fail here.
use vodum.Common.{
  ℕ, ◌+◌, Bool, true, false, not, ◌&&◌, Option, none, some, List, [], ◌∷◌, ◌++◌, String, ltb,
  count_rows, update_rows, delete_rows, if◌then◌else◌,
}
use Prim.Native.String.{◌++◌ as str_append}
use vodum.Tasks.{value_error}
use vodum.State.{Result, ok, raised}
use vodum.Media.Table.{
  JobProvider, plex, jellyfin, JobAction, JobStatus, superseded, MediaJob, same_provider, is_access,
  is_queued, is_running, is_active, equals, has_key,
}

pub record Jobs : Type 0 where
  pub rows : List MediaJob
  pub next_id : ℕ
  pub now : ℕ

pub record AccessRequest : Type 0 where
  pub provider : JobProvider
  pub action : JobAction
  pub vodum_user_id : ℕ
  pub server_id : ℕ
  pub library_id : Option ℕ
  pub dedupe_key : String
  pub payload : String

-- `WHERE provider = ? AND vodum_user_id = ? AND server_id = ? AND action IN …`
abbrev pub is_rival : AccessRequest → MediaJob → Bool
is_rival r j =
    same_provider j.provider r.provider
    && equals j.vodum_user_id r.vodum_user_id
    && equals j.server_id r.server_id
    && is_access j.action

-- `_queued_after_running_key`
unfoldable pub queued_after_running_key : String → String
queued_after_running_key k = str_append k ":after-running"

-- `status = 'running' AND processed = 0 AND (locked_until IS NULL OR locked_until > now)`
abbrev pub is_live : ℕ → MediaJob → Bool
is_live now j =
    is_running j.status
    && not j.processed
    && elim j.locked_until [ none ↦ true | some t ↦ ltb now t ]

unfoldable pub has_running_access_job : AccessRequest → Jobs → Bool
has_running_access_job r s = ltb 0 (count_rows (λ j. is_rival r j && is_live s.now j) s.rows)

abbrev pub is_waiting_rival : AccessRequest → MediaJob → Bool
is_waiting_rival r j = is_rival r j && is_queued j.status && not j.processed

abbrev pub cancel_row : ℕ → MediaJob → MediaJob
cancel_row now j = record j {
  status = JobStatus.canceled;
  processed = true;
  was_success = false;
  processed_at = some now;
  locked_by = none;
  locked_until = none;
  last_error = some superseded;
}

abbrev pub new_job : AccessRequest → String → Option ℕ → Jobs → MediaJob
new_job r key run_after s = record {
  id = s.next_id;
  provider = r.provider;
  action = r.action;
  vodum_user_id = some r.vodum_user_id;
  server_id = some r.server_id;
  library_id = r.library_id;
  payload_json = some r.payload;
  status = JobStatus.queued;
  priority = 100;
  run_after = run_after;
  locked_by = none;
  locked_until = none;
  attempts = 0;
  max_attempts = 10;
  last_error = none;
  processed = false;
  was_success = false;
  created_at = s.now;
  processed_at = none;
  executed_at = none;
  dedupe_key = some key;
}

-- `INSERT OR IGNORE`, under the unique index on the keys of active rows.
unfoldable pub insert_or_ignore : String → (Jobs → MediaJob) → Jobs → Bool × Jobs
insert_or_ignore key make s =
    if ltb 0 (count_rows (λ j. is_active j && has_key key j) s.rows)
    then (false, s)
    else (true, record s { rows = s.rows ++ make s ∷ []; next_id = s.next_id + 1 })

-- The two writes before the INSERT.
abbrev pub cleared : AccessRequest → String → Jobs → Jobs
cleared r key s = record s {
  rows =
      delete_rows (λ j. has_key key j && j.processed)
        (update_rows (is_waiting_rival r) (cancel_row s.now) s.rows);
}

unfoldable pub queue_access_job : AccessRequest → Jobs → Result Bool × Jobs
unfolding has_running_access_job queued_after_running_key insert_or_ignore
queue_access_job r s =
    if not (is_access r.action)
    then (raised value_error, s)
    else let running = has_running_access_job r s in
      let key = if running then queued_after_running_key r.dedupe_key else r.dedupe_key in
      let run_after = if running then some (s.now + 120) else none in
      let (added, s') = insert_or_ignore key (new_job r key run_after) (cleared r key s) in
      (ok added, s')

unfoldable pub insert_plex_media_job : AccessRequest → Jobs → Result Bool × Jobs
insert_plex_media_job r = queue_access_job (record r { provider = plex })

unfoldable pub insert_jellyfin_media_job : AccessRequest → Jobs → Result Bool × Jobs
insert_jellyfin_media_job r = queue_access_job (record r { provider = jellyfin })
