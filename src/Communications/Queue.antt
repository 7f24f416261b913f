-- ===== src/Communications/Queue.antt =====
-- app/communications_engine.py, `schedule_template_notification`: the rows of `comm_scheduled`. A time
-- is a number of seconds, and the modifier of the time to send at is a delay. SQLite does not fail here.
use vodum.Common.{
  ltb, count_rows, ◌&&◌, not, ℕ, ◌+◌, ◌==◌, Bool, true, false, Option, none, some, List, [], ◌∷◌,
  ◌++◌, String, str_eq, leb, find_row, update_rows, if◌then◌else◌,
}
use vodum.Tasks.{db_error}
use vodum.State.{Provider, Result, ok, raised}

pub data SendStatus : Type 0 where
  pending sent error : SendStatus

pub record Scheduled : Type 0 where
  pub id : ℕ
  pub template_id : ℕ
  pub vodum_user_id : ℕ
  pub provider : Provider
  pub server_id : Option ℕ
  pub send_at : ℕ
  pub status : SendStatus
  pub last_error : Option String
  pub attempt_count : ℕ
  pub max_attempts : ℕ
  pub next_attempt_at : Option ℕ
  pub last_attempt_at : Option ℕ
  pub payload_json : String
  pub dedupe_key : Option String
  pub channels_sent : Option String
  pub created_at : ℕ
  pub updated_at : ℕ

pub record Outbox : Type 0 where
  pub rows : List Scheduled
  pub next_id : ℕ
  pub now : ℕ

pub record Notification : Type 0 where
  pub template_id : ℕ
  pub user_id : ℕ
  pub provider : Provider
  pub server_id : Option ℕ
  pub delay : Option ℕ
  pub payload : String
  pub dedupe_key : Option String
  pub max_attempts : ℕ

abbrev pub has_dedupe_key : String → Scheduled → Bool
has_dedupe_key k r = elim r.dedupe_key [ none ↦ false | some l ↦ str_eq l k ]

abbrev pub send_time : Option ℕ → ℕ → ℕ
send_time none now = now
send_time (some d) now = now + d

-- `attempt_count >= (max_attempts or …)`
unfoldable pub is_final_error : ℕ → Scheduled → Bool
is_final_error given r = elim r.status [
  | error ↦ leb (if r.max_attempts == 0 then given else r.max_attempts) r.attempt_count
  | _ ↦ false
]

abbrev pub revive_row : ℕ → Notification → Scheduled → Scheduled
revive_row now n r = record r {
  template_id = n.template_id;
  vodum_user_id = n.user_id;
  provider = n.provider;
  server_id = n.server_id;
  send_at = send_time n.delay now;
  status = SendStatus.pending;
  last_error = none;
  attempt_count = 0;
  max_attempts = n.max_attempts;
  next_attempt_at = none;
  last_attempt_at = none;
  payload_json = n.payload;
  updated_at = now;
}

abbrev pub new_scheduled : Notification → Outbox → Scheduled
new_scheduled n o = record {
  id = o.next_id;
  template_id = n.template_id;
  vodum_user_id = n.user_id;
  provider = n.provider;
  server_id = n.server_id;
  send_at = send_time n.delay o.now;
  status = SendStatus.pending;
  last_error = none;
  attempt_count = 0;
  max_attempts = n.max_attempts;
  next_attempt_at = none;
  last_attempt_at = none;
  payload_json = n.payload;
  dedupe_key = n.dedupe_key;
  channels_sent = none;
  created_at = o.now;
  updated_at = o.now;
}

-- `CHECK (provider IN ('plex','jellyfin'))`
abbrev pub is_known_provider : Provider → Bool
is_known_provider Provider.other = false
is_known_provider _ = true

-- An empty key is not looked up.
abbrev pub find_keyed : Option String → List Scheduled → Option Scheduled
find_keyed none rows = none
find_keyed (some k) rows = if str_eq k "" then none else find_row (has_dedupe_key k) rows

-- The unique index on the keys; NULL is no key.
abbrev pub is_taken : Option String → List Scheduled → Bool
is_taken none rows = false
is_taken (some k) rows = ltb 0 (count_rows (has_dedupe_key k) rows)

-- `INSERT OR IGNORE`, which passes over a row that the CHECK or the unique index refuses.
unfoldable pub insert_scheduled : Notification → Outbox → Result Bool × Outbox
insert_scheduled n o =
    if is_known_provider n.provider && not (is_taken n.dedupe_key o.rows)
    then (ok true, record o { rows = o.rows ++ new_scheduled n o ∷ []; next_id = o.next_id + 1 })
    else (ok false, o)

abbrev pub is_row : ℕ → Scheduled → Bool
is_row i r = r.id == i

-- The CHECK makes an UPDATE raise.
unfoldable pub schedule_existing : Notification → Scheduled → Outbox → Result Bool × Outbox
schedule_existing n r o =
    if is_final_error n.max_attempts r
    then (if is_known_provider n.provider
        then (ok true, record o { rows = update_rows (is_row r.id) (revive_row o.now n) o.rows })
        else (raised db_error, o))
    else (ok false, o)

unfoldable pub schedule_template_notification : Notification → Outbox → Result Bool × Outbox
schedule_template_notification n o = elim (find_keyed n.dedupe_key o.rows) [
  | none ↦ insert_scheduled n o
  | some r ↦ schedule_existing n r o
]
