-- ===== src/Subscriptions/Update/Access.antt =====
-- app/api/subscriptions.py: the policies and the Plex jobs of a user who is given a new date.
use vodum.Common.{
  ℕ, ◌+◌, ◌==◌, Bool, true, false, not, ◌&&◌, ◌||◌, none, some, List, [], ◌∷◌, ltb, leb, any,
  where_rows, update_rows, sort_by, if◌then◌else◌,
}
use Prim.Native.String.{◌++◌ as str_append}
use vodum.Tasks.{runtime_error}
use vodum.State.{Provider, Result, ok, raised}
use vodum.Media.{
  AccessRequest, MediaJob, JobAction, JobStatus, Jobs, plex, same_provider, is_access, is_active,
  equals, superseded, insert_plex_media_job,
}
use vodum.Subscriptions.Status.{UserStatus}
use vodum.Subscriptions.Expiry.{SystemRule}
use vodum.Subscriptions.Tables.{Member, Contact, UserPolicy, Formats}

abbrev pub is_member : ℕ → Member → Bool
is_member i m = m.id == i

-- A rule that is no object raises; what was deleted before stays deleted.
unfoldable pub remove_expired_subscription_policy_for_user :
    ℕ → List UserPolicy → Result ℕ × List UserPolicy
remove_expired_subscription_policy_for_user user [] = (ok 0, [])
remove_expired_subscription_policy_for_user user (p ∷ ps) =
    let rest = remove_expired_subscription_policy_for_user user ps in
    let kept : Result ℕ × List UserPolicy = (rest.0, p ∷ rest.1) in
    if not (equals p.user_id user) then kept else elim p.rule [
      | SystemRule.tagged ↦ elim rest.0 [
        | ok n ↦ (ok (n + 1), rest.1)
        | raised e ↦ (raised e, rest.1)
      ]
      | SystemRule.untagged ↦ kept
      | SystemRule.not_object ↦ (raised (runtime_error "rule"), p ∷ ps)
    ]

-- `status IN ('queued', 'running') OR processed = 0`
abbrev pub is_open_plex_job : ℕ → MediaJob → Bool
is_open_plex_job user j =
    equals j.vodum_user_id user
    && same_provider j.provider plex
    && is_access j.action
    && (is_active j || not j.processed)

abbrev pub close_row : ℕ → MediaJob → MediaJob
close_row now j = record j {
  status = JobStatus.canceled;
  processed = true;
  was_success = false;
  processed_at = some now;
  locked_by = none;
  locked_until = none;
  last_error = some superseded;
}

unfoldable pub cleanup_pending_plex_jobs_for_user : ℕ → Jobs → Jobs
cleanup_pending_plex_jobs_for_user user s = record s {
  rows = update_rows (is_open_plex_job user) (close_row s.now) s.rows;
}

abbrev pub is_plex : Provider → Bool
is_plex Provider.plex = true
is_plex _ = false

-- A condition of an ORDER BY: the rows that have it go last.
abbrev pub goes_first : Bool → Bool → Bool → Bool
goes_first false true later = true
goes_first true false later = false
goes_first _ _ later = later

unfoldable pub is_preferred : Contact → Contact → Bool
is_preferred a b =
    if not (a.server_id == b.server_id)
    then ltb a.server_id b.server_id
    else goes_first a.is_owner b.is_owner (
        goes_first (not a.is_accepted) (not b.is_accepted) (
          goes_first (not a.has_external_id) (not b.has_external_id)
            (goes_first a.is_unfriended b.is_unfriended (leb a.id b.id))))

unfoldable pub plex_contacts : ℕ → List Contact → List Contact
plex_contacts user contacts = sort_by is_preferred (
    where_rows (λ (c : Contact). c.vodum_user_id == user && is_plex c.server_type && is_plex c.type)
      contacts)

abbrev pub status_number : UserStatus → ℕ
status_number UserStatus.active = 1
status_number UserStatus.pre_expired = 2
status_number UserStatus.reminder = 3
status_number UserStatus.expired = 4
status_number UserStatus.invited = 5
status_number UserStatus.unfriended = 6
status_number UserStatus.suspended = 7
status_number UserStatus.unknown = 8
status_number UserStatus.unset = 0

abbrev pub sync_request : Formats → ℕ → UserStatus → UserStatus → Contact → AccessRequest
sync_request f user old new c =
    let server = str_append "plex:sync:server=" (f.digits c.server_id) in
    record {
      provider = plex;
      action = JobAction.sync;
      vodum_user_id = user;
      server_id = c.server_id;
      library_id = none;
      dedupe_key =
          str_append server
            (str_append (str_append ":media_user=" (f.digits c.id)) ":reactivation");
      payload = f.json (status_number old ∷ status_number new ∷ c.id ∷ []);
    }

-- The loop with the servers that it has seen.
unfoldable pub queue_syncs :
    Formats → ℕ → UserStatus → UserStatus → List ℕ → List Contact → Jobs → Result ℕ × Jobs
queue_syncs f user old new seen [] s = (ok 0, s)
queue_syncs f user old new seen (c ∷ cs) s =
    let queued = insert_plex_media_job (sync_request f user old new c) s in
    let skipped = queue_syncs f user old new seen cs s in
    let others = queue_syncs f user old new (c.server_id ∷ seen) cs queued.1 in
    if any (λ i. i == c.server_id) seen then skipped else elim queued.0 [
      | raised e ↦ (raised e, queued.1)
      | ok added ↦ elim others.0 [
        | raised e ↦ (raised e, others.1)
        | ok n ↦ (ok (if added then n + 1 else n), others.1)
      ]
    ]
