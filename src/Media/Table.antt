-- ===== src/Media/Table.antt =====
-- A row of `media_jobs` (tables.sql, lines 548 to 598) and the operations that both modules use.
-- `locked_by` is a number for the text that names a claim; times are seconds.
use vodum.Common.{ℕ, Bool, true, false, ◌||◌, Option, none, some, String, str_eq, ◌==◌, leb}

pub data JobProvider : Type 0 where
  plex jellyfin : JobProvider

pub data JobAction : Type 0 where
  grant revoke sync refresh : JobAction

pub data JobStatus : Type 0 where
  queued running success error canceled : JobStatus

-- `last_error`: one of the fixed texts, or the text of an exception.
pub data JobError : Type 0 where
  superseded recovered : JobError
  text : String → JobError

pub record MediaJob : Type 0 where
  pub id : ℕ
  pub provider : JobProvider
  pub action : JobAction
  pub vodum_user_id : Option ℕ
  pub server_id : Option ℕ
  pub library_id : Option ℕ
  pub payload_json : Option String
  pub status : JobStatus
  pub priority : ℕ
  pub run_after : Option ℕ
  pub locked_by : Option ℕ
  pub locked_until : Option ℕ
  pub attempts : ℕ
  pub max_attempts : ℕ
  pub last_error : Option JobError
  pub processed : Bool
  pub was_success : Bool
  pub created_at : ℕ
  pub processed_at : Option ℕ
  pub executed_at : Option ℕ
  pub dedupe_key : Option String

abbrev pub same_provider : JobProvider → JobProvider → Bool
same_provider plex plex = true
same_provider jellyfin jellyfin = true
same_provider _ _ = false

-- `action IN ('grant', 'revoke', 'sync')`
abbrev pub is_access : JobAction → Bool
is_access refresh = false
is_access _ = true

abbrev pub is_refresh : JobAction → Bool
is_refresh refresh = true
is_refresh _ = false

abbrev pub is_queued : JobStatus → Bool
is_queued queued = true
is_queued _ = false

abbrev pub is_running : JobStatus → Bool
is_running running = true
is_running _ = false

-- `status IN ('queued','running')`, the rows of the unique index on `dedupe_key`.
abbrev pub is_active : MediaJob → Bool
is_active j = is_queued j.status || is_running j.status

-- `column = ?` is not true of NULL.
abbrev pub equals : Option ℕ → ℕ → Bool
equals none n = false
equals (some m) n = m == n

abbrev pub has_key : String → MediaJob → Bool
has_key k j = elim j.dedupe_key [ none ↦ false | some l ↦ str_eq l k ]

-- `column IS NULL OR column <= CURRENT_TIMESTAMP`
abbrev pub is_past : Option ℕ → ℕ → Bool
is_past none now = true
is_past (some t) now = leb t now

-- `column IS NOT NULL AND column <= CURRENT_TIMESTAMP`
abbrev pub has_expired : Option ℕ → ℕ → Bool
has_expired none now = false
has_expired (some t) now = leb t now

abbrev pub job_id : ℕ → MediaJob → Bool
job_id i j = j.id == i
