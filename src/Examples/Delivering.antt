-- ===== src/Examples/Delivering.antt =====
-- The theorems on the worker of Jellyfin's jobs at concrete inputs.
use vodum.Common.{
  All, arith, ℕ, any, count_rows, ◌==◌, ◌≤◌, zero, suc, ◌+◌, ◌≡◌, refl, true, false, none, some,
  List, [], ◌∷◌, ◌++◌,
}
use vodum.State.{ok}
use vodum.Cooldown.{
  ServerStatus, ServerRow, should_skip_unreachable_server, is_server_in_cooldown,
  get_server_cooldown_remaining_seconds,
}
use vodum.Media.{MediaJob, JobProvider}
use vodum.Jellyfin.{
  UserAccess, Call, Reply, JellyfinAccount, Access, Jellyfin, get_desired_enabled_folders,
  get_jellyfin_accounts, mark_attempt, mark_success, run_job, run,
}
use vodum.Jellyfin.Folders.{is_wanted}
use vodum.Jellyfin.Applied.{IsHealthy, told, run_job_applies}
use vodum.Jellyfin.Blocked.{IsBehind, blocked_jobs_starve}
use vodum.Examples.Jobs.{waiting_job, jobs_of}

-- On the server, the user sees every folder.
abbrev open_access : ℕ → UserAccess
open_access user = record { enable_all_folders = some true; enabled_folders = none; rest = user }

abbrev reply : Call → Reply
reply (Call.get_user server user) = Reply.answered 200 (some (open_access user))
reply _ = Reply.answered 204 none

abbrev healthy_server : Jellyfin
healthy_server = record { answer = λ n call. reply call; describe = λ f. "error" }

healthy_server-IsHealthy : IsHealthy healthy_server 7 open_access
healthy_server-IsHealthy = record { knows = λ n user. refl; takes = λ n user a. refl }

abbrev row : ℕ → ServerStatus → ServerRow
row i status = record {
  id = i;
  status = status;
  has_url = true;
  has_token = true;
  last_checked = some 900;
  unavailable_since = none;
  cooldown_until = none;
  last_failure = none;
}

abbrev job : MediaJob
job = record waiting_job { provider = JobProvider.jellyfin }

-- The first account is to be told of library 2 only; the other one is marked as removed.
abbrev account : JellyfinAccount
account = record {
  id = 1;
  vodum_user_id = 5;
  server_id = 7;
  is_jellyfin = true;
  external_user_id = some 70;
  is_removed = false;
  removed_as = none;
  checked_at = none;
}

abbrev access : Access
access = record {
  jobs = jobs_of (job ∷ []);
  servers = row 7 ServerStatus.other_status ∷ row 8 ServerStatus.down ∷ [];
  accounts =
      account ∷ record account { id = 2; external_user_id = some 71; is_removed = true } ∷ [];
  sections =
      record { library_id = 2; server_id = 7; section_id = some 22 }
      ∷ record { library_id = 3; server_id = 7; section_id = some 33 }
      ∷ [];
  links = record { media_user_id = 1; library_id = 2 } ∷ [];
  calls = [];
}

one_folder :
    told open_access 7 (get_desired_enabled_folders 5 7 access) (get_jellyfin_accounts 5 7 access)
    ≡ Call.get_user 7 70
      ∷ Call.post_policy 7 70
          (record { enable_all_folders = some false; enabled_folders = some (22 ∷ []); rest = 70 })
      ∷ []
unfolding get_desired_enabled_folders get_jellyfin_accounts
one_folder = refl

run_job_applies_example :
    (folders : List ℕ) × (run_job healthy_server job access ≡ (
      ok tt,
      mark_success 1 (record (mark_attempt 1 access) {
        calls = [] ++ told open_access 7 folders (get_jellyfin_accounts 5 7 access);
      }),
    ))
    × ((i : ℕ)
        → (any (λ n. n == i) folders ≡ is_wanted 5 7 access i)
          × (count_rows (λ n. n == i) folders ≤ 1))
unfolding should_skip_unreachable_server is_server_in_cooldown get_server_cooldown_remaining_seconds
run_job_applies_example =
    run_job_applies healthy_server open_access job 5 (row 7 ServerStatus.other_status) access
      healthy_server-IsHealthy refl refl refl refl refl refl refl

-- So many jobs for the server that is down, each older than the one for the other server.
abbrev stuck_jobs : ℕ → List MediaJob → List MediaJob
stuck_jobs zero rest = rest
stuck_jobs (suc n) rest =
    record job { id = 10 + n; server_id = some 8; created_at = 100 } ∷ stuck_jobs n rest

abbrev stuck : Access
stuck = record access { jobs = jobs_of (stuck_jobs 50 (job ∷ [])) }

all-IsBehind : (n : ℕ) → IsBehind stuck job → All (IsBehind stuck) (stuck_jobs n (job ∷ []))
unfolding should_skip_unreachable_server is_server_in_cooldown get_server_cooldown_remaining_seconds
all-IsBehind zero h = (h, tt)
all-IsBehind (suc n) h = ((λ waits open_one. absurd cc), all-IsBehind n h)

job-IsBehind : IsBehind stuck job
unfolding should_skip_unreachable_server is_server_in_cooldown get_server_cooldown_remaining_seconds
job-IsBehind waits open_one = omega arith

blocked_jobs_starve_example : run healthy_server stuck ≡ (ok tt, stuck)
blocked_jobs_starve_example =
    blocked_jobs_starve healthy_server stuck (all-IsBehind 50 job-IsBehind)
