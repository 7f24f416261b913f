-- ===== src/Jellyfin.antt =====
-- app/tasks/apply_jellyfin_access_updates.py: the worker that brings the libraries of a user to Jellyfin.
-- The id of a user or a library on a server is a number for its text, in the order of the texts.
-- SQLite does not fail here; the server answers each request as it likes.
use vodum.Common.{
  ℕ, ◌+◌, ◌==◌, Bool, true, false, not, ◌&&◌, ◌||◌, Option, none, some, List, [], ◌∷◌, ◌++◌, String,
  ltb, leb, any, take, length, where_rows, find_row, update_rows, sort_by, if◌then◌else◌,
}
use vodum.Tasks.{value_error}
use vodum.State.{Result, ok, raised}
use vodum.Cooldown.{ServerRow, is_server, should_skip_unreachable_server}
use vodum.Media.{MediaJob, JobError, Jobs, jellyfin, same_provider, is_access, job_id, equals}
use vodum.Subscriptions.Expiry.{Link}
mod Requests
unfoldable pub use Requests.*
pub mod Folders
pub mod Applied
pub mod Blocked

-- A row of media_users; the texts of `details_json` that the worker reads and writes.
pub record JellyfinAccount : Type 0 where
  pub id : ℕ
  pub vodum_user_id : ℕ
  pub server_id : ℕ
  pub is_jellyfin : Bool
  pub external_user_id : Option ℕ
  pub is_removed : Bool
  pub removed_as : Option ℕ
  pub checked_at : Option ℕ

pub record Section : Type 0 where
  pub library_id : ℕ
  pub server_id : ℕ
  pub section_id : Option ℕ

-- `calls` are the requests so far, the first one first.
pub record Access : Type 0 where
  pub jobs : Jobs
  pub servers : List ServerRow
  pub accounts : List JellyfinAccount
  pub sections : List Section
  pub links : List Link
  pub calls : List Call

abbrev pub is_pending_access : MediaJob → Bool
is_pending_access j = not j.processed && same_provider j.provider jellyfin && is_access j.action

abbrev pub is_older : MediaJob → MediaJob → Bool
is_older j k = leb j.created_at k.created_at

unfoldable pub fetch_pending_jobs : Jobs → List MediaJob
fetch_pending_jobs s = take 50 (sort_by is_older (where_rows is_pending_access s.rows))

abbrev pub update_job : ℕ → (MediaJob → MediaJob) → Access → Access
update_job i f s = record s { jobs = record s.jobs { rows = update_rows (job_id i) f s.jobs.rows } }

unfoldable pub mark_attempt : ℕ → Access → Access
mark_attempt i s =
    update_job i
      (λ (j : MediaJob). record j {
        attempts = j.attempts + 1;
        executed_at = some s.jobs.now;
        last_error = none;
      })
      s

-- The status of the row stays.
unfoldable pub mark_success : ℕ → Access → Access
mark_success i s =
    update_job i
      (λ (j : MediaJob). record j {
        processed = true;
        was_success = true;
        last_error = none;
        processed_at = some s.jobs.now;
      })
      s

unfoldable pub mark_failure : ℕ → String → Access → Access
mark_failure i error s =
    update_job i
      (λ (j : MediaJob). record j { was_success = false; last_error = some (JobError.text error) })
      s

unfoldable pub mark_jellyfin_account_removed : ℕ → ℕ → Access → Access
mark_jellyfin_account_removed account user s = record s {
  accounts =
      update_rows (λ (a : JellyfinAccount). a.id == account)
        (λ (a : JellyfinAccount). record a {
          is_removed = true;
          removed_as = some user;
          checked_at = some s.jobs.now;
        })
        s.accounts;
}

unfoldable pub get_jellyfin_accounts : ℕ → ℕ → Access → List JellyfinAccount
get_jellyfin_accounts user server s =
    where_rows
      (λ (a : JellyfinAccount). a.vodum_user_id == user && a.server_id == server && a.is_jellyfin)
      s.accounts

-- The join of links, accounts and libraries: whether some link leads from the user to the library.
abbrev pub is_shared_with : ℕ → ℕ → Access → Section → Bool
is_shared_with user server s l =
    l.server_id == server
    && any
        (λ (k : Link).
          k.library_id == l.library_id
          && any (λ (a : JellyfinAccount). a.id == k.media_user_id)
              (get_jellyfin_accounts user server s))
        s.links

abbrev pub section_ids : List Section → List ℕ
section_ids [] = []
section_ids (l ∷ ls) = elim l.section_id [ none ↦ section_ids ls | some i ↦ i ∷ section_ids ls ]

abbrev pub distinct : List ℕ → List ℕ
distinct [] = []
distinct (i ∷ is) = if any (λ j. j == i) is then distinct is else i ∷ distinct is

unfoldable pub get_desired_enabled_folders : ℕ → ℕ → Access → List ℕ
get_desired_enabled_folders user server s =
    distinct (sort_by leb (section_ids (where_rows (is_shared_with user server s) s.sections)))

-- The loop over the accounts.
unfoldable pub apply_accounts :
    Jellyfin → ℕ → List ℕ → List JellyfinAccount → Access → Option Failure × Access
apply_accounts jf server folders [] s = (none, s)
apply_accounts jf server folders (a ∷ rest) s = elim a.external_user_id [
  | none ↦ apply_accounts jf server folders rest s
  | some user ↦
      let skipped = apply_accounts jf server folders rest s in
      let one = apply_policy_enabled_folders jf server user folders s.calls in
      let s' = record s { calls = one.1 } in
      let applied = apply_accounts jf server folders rest s' in
      let removed =
        apply_accounts jf server folders rest (mark_jellyfin_account_removed a.id user s') in
      if a.is_removed then skipped else elim one.0 [
        | none ↦ applied
        | some (http code) ↦ if code == 404 then removed else (some (http code), s')
        | some f ↦ (some f, s')
      ]
]

unfoldable pub process_on_server : Jellyfin → ℕ → ServerRow → Access → Option Failure × Access
process_on_server jf user server s =
    if not server.has_url
    then (some no_url, s)
    else if not server.has_token
    then (some no_token, s)
    else apply_accounts jf server.id (get_desired_enabled_folders user server.id s)
        (get_jellyfin_accounts user server.id s) s

unfoldable pub process_job : Jellyfin → MediaJob → Access → Option Failure × Access
process_job jf j s = elim j.vodum_user_id [
  | none ↦ (some invalid_job, s)
  | some user ↦ elim j.server_id [
    | none ↦ (some invalid_job, s)
    | some i ↦ elim (find_row (is_server i) s.servers) [
      | none ↦ (some no_server, s)
      | some server ↦ process_on_server jf user server s
    ]
  ]
]

abbrev pub finish_job : Jellyfin → ℕ → Option Failure × Access → Access
finish_job jf i (none, s) = mark_success i s
finish_job jf i (some f, s) = mark_failure i (jf.describe f) s

abbrev pub is_skipped : ℕ → Option ServerRow → Bool
is_skipped now none = false
is_skipped now (some server) = should_skip_unreachable_server now server

-- The body of the loop; a job without a server raises outside the `try`.
unfoldable pub run_job : Jellyfin → MediaJob → Access → Result (Unit {0}) × Access
run_job jf j s = elim j.server_id [
  | none ↦ (raised value_error, s)
  | some i ↦
      if is_skipped s.jobs.now (find_row (is_server i) s.servers) || not (is_access j.action)
      then (ok tt, s)
      else (ok tt, finish_job jf j.id (process_job jf j (mark_attempt j.id s)))
]

unfoldable pub run_jobs : Jellyfin → List MediaJob → Access → Result (Unit {0}) × Access
run_jobs jf [] s = (ok tt, s)
run_jobs jf (j ∷ js) s =
    let one = run_job jf j s in
    let rest = run_jobs jf js one.1 in elim one.0 [ raised e ↦ (raised e, one.1) | ok _ ↦ rest ]

unfoldable pub run : Jellyfin → Access → Result (Unit {0}) × Access
run jf s = run_jobs jf (fetch_pending_jobs s.jobs) s
