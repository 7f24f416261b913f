-- ===== src/Jellyfin/Applied.antt =====
-- app/tasks/apply_jellyfin_access_updates.py: what the server is told.
use vodum.Common.{
  sym, ℕ, ◌≡◌, refl, true, false, none, some, List, [], ◌∷◌, ◌++◌, find_row, if◌then◌else◌, arith,
  any, count_rows, ◌==◌, ◌≤◌, Bool-cases, Option-cases, inl, inr, length, ◌∙◌, ap,
}
use mathlib.Core.List.{append_assoc, append-nil}
use vodum.State.{ok}
use vodum.Cooldown.{ServerRow, is_server}
use vodum.Media.{MediaJob, is_access}
use vodum.Jellyfin.{
  Jellyfin, Access, UserAccess, Call, get_user, post_policy, answered, JellyfinAccount, restrict,
  set_policy, apply_policy_enabled_folders, is_skipped, apply_accounts, process_on_server,
  process_job, finish_job, mark_attempt, mark_success, get_jellyfin_accounts,
  get_desired_enabled_folders, run_job,
}
use vodum.Jellyfin.Folders.{is_wanted, get_desired_enabled_folders_lem}

-- The server knows each of its users and takes each policy.
pub record IsHealthy (jf : Jellyfin) (server : ℕ) (access : ℕ → UserAccess) : Type 0 where
  pub knows : (n user : ℕ) → jf.answer n (get_user server user) ≡ answered 200 (some (access user))
  pub takes :
      (n user : ℕ) (a : UserAccess) → jf.answer n (post_policy server user a) ≡ answered 204 none

-- Two requests for each account that has an id and is not marked as removed, the second one with the
-- policy that the first one gets, but for the folders.
abbrev pub told : (ℕ → UserAccess) → ℕ → List ℕ → List JellyfinAccount → List Call
told access server folders [] = []
told access server folders (a ∷ rest) = elim a.external_user_id [
  | none ↦ told access server folders rest
  | some user ↦
      if a.is_removed
      then told access server folders rest
      else get_user server user
        ∷ post_policy server user (record (access user) {
          enable_all_folders = some false;
          enabled_folders = some folders;
        })
        ∷ told access server folders rest
]

module _ (jf : Jellyfin) (server : ℕ) (access : ℕ → UserAccess)
    (h : IsHealthy jf server access) where
  set_policy-healthy :
      (user : ℕ) (a : UserAccess) (calls : List Call)
      → set_policy jf server user a calls ≡ (none, calls ++ post_policy server user a ∷ [])
  unfolding set_policy
  set_policy-healthy user a calls = rw (set_policy, h.takes (length calls) user a) refl

  apply-healthy :
      (user : ℕ) (folders : List ℕ) (calls : List Call)
      → apply_policy_enabled_folders jf server user folders calls ≡ (
        none,
        calls
            ++ get_user server user ∷ post_policy server user (restrict folders (access user)) ∷ [],
      )
  unfolding apply_policy_enabled_folders
  apply-healthy user folders calls =
      let asked = calls ++ get_user server user ∷ [] in
      let step : apply_policy_enabled_folders jf server user folders calls
          ≡ set_policy jf server user (restrict folders (access user)) asked =
        rw (apply_policy_enabled_folders, h.knows (length calls) user) refl in
      step
      ∙ set_policy-healthy user (restrict folders (access user)) asked
      ∙ ap (λ cs. (none, cs)) (append_assoc calls (get_user server user ∷ []) _)

  apply_accounts-step :
      (folders : List ℕ) (a : JellyfinAccount) (rest : List JellyfinAccount) (user : ℕ) (s : Access)
      → a.external_user_id ≡ some user
      → a.is_removed ≡ false
      → apply_accounts jf server folders (a ∷ rest) s
        ≡ apply_accounts jf server folders rest
            (record s { calls = (apply_policy_enabled_folders jf server user folders s.calls).1 })
  unfolding apply_accounts
  apply_accounts-step folders a rest user s known there =
      rw (apply_accounts, known, there, ap (λ r. r.0) (apply-healthy user folders s.calls)) refl

  apply_accounts-healthy :
      (folders : List ℕ) (rows : List JellyfinAccount) (s : Access)
      → apply_accounts jf server folders rows s
        ≡ (none, record s { calls = s.calls ++ told access server folders rows })
  unfolding apply_accounts
  apply_accounts-healthy folders [] s =
      ap (λ cs. (none, record s { calls = cs })) (sym (append-nil s.calls))
  apply_accounts-healthy folders (a ∷ rest) s = elim (Option-cases a.external_user_id) [
    | inl unknown ↦ rw (apply_accounts, unknown) (apply_accounts-healthy folders rest s)
    | inr (user, known) ↦ elim (Bool-cases a.is_removed) [
      | inl gone ↦ rw (apply_accounts, known, gone) (apply_accounts-healthy folders rest s)
      | inr there ↦
          let two =
            get_user server user ∷ post_policy server user (restrict folders (access user)) ∷ [] in
          apply_accounts-step folders a rest user s known there
          ∙ ap (λ r. apply_accounts jf server folders rest (record s { calls = r.1 }))
              (apply-healthy user folders s.calls)
          ∙ apply_accounts-healthy folders rest (record s { calls = s.calls ++ two })
          ∙ rw (known, there)
              (ap (λ cs. (none, record s { calls = cs }))
                (append_assoc s.calls two (told access server folders rest)))
    ]
  ]

run_job-step :
    (jf : Jellyfin) (j : MediaJob) (server : ServerRow) (s : Access)
    → j.server_id ≡ some server.id
    → find_row (is_server server.id) s.servers ≡ some server
    → is_skipped s.jobs.now (some server) ≡ false
    → is_access j.action ≡ true
    → run_job jf j s ≡ (ok tt, finish_job jf j.id (process_job jf j (mark_attempt j.id s)))
unfolding run_job
run_job-step jf j server s place found awake known = ground (arith, place, found, awake, known)

process_job-step :
    (jf : Jellyfin) (j : MediaJob) (user : ℕ) (server : ServerRow) (s : Access)
    → j.vodum_user_id ≡ some user
    → j.server_id ≡ some server.id
    → find_row (is_server server.id) s.servers ≡ some server
    → process_job jf j s ≡ process_on_server jf user server s
unfolding process_job
process_job-step jf j user server s owner place found = rw (process_job, owner, place, found) refl

process_on_server-step :
    (jf : Jellyfin) (user : ℕ) (server : ServerRow) (s : Access)
    → server.has_url ≡ true
    → server.has_token ≡ true
    → process_on_server jf user server s
      ≡ apply_accounts jf server.id
          (get_desired_enabled_folders user server.id s)
          (get_jellyfin_accounts user server.id s)
          s
unfolding process_on_server
process_on_server-step jf user server s url token = rw (process_on_server, url, token) refl

-- With a server that answers, is there and is not in its pause, a job of a user tells the server, for
-- each of the user's accounts with an id that are not marked as removed, to show the folders of some
-- list only and to leave the rest of its policy as it is; then the job is done. The list holds, each
-- once, the folders of the libraries that a link of one of the user's accounts there leads to.
pub run_job_applies :
    (jf : Jellyfin) (access : ℕ → UserAccess) (j : MediaJob) (user : ℕ) (server : ServerRow)
    (s : Access)
    → IsHealthy jf server.id access
    → j.vodum_user_id ≡ some user
    → j.server_id ≡ some server.id
    → is_access j.action ≡ true
    → find_row (is_server server.id) s.servers ≡ some server
    → is_skipped s.jobs.now (some server) ≡ false
    → server.has_url ≡ true
    → server.has_token ≡ true
    → let attempted = mark_attempt j.id s in
      (folders : List ℕ) × (run_job jf j s ≡ (
        ok tt,
        mark_success j.id (record attempted {
          calls = s.calls ++ told access server.id folders (get_jellyfin_accounts user server.id s);
        }),
      ))
      × ((i : ℕ)
          → (any (λ n. n == i) folders ≡ is_wanted user server.id s i)
            × (count_rows (λ n. n == i) folders ≤ 1))
unfolding mark_attempt get_desired_enabled_folders get_jellyfin_accounts
run_job_applies jf access j user server s healthy owner place known found awake url token =
    let attempted = mark_attempt j.id s in
    let folders = get_desired_enabled_folders user server.id s in
    let accounts = get_jellyfin_accounts user server.id s in
    (
      folders,
      run_job-step jf j server s place found awake known
          ∙ ap (λ r. (ok tt, finish_job jf j.id r))
              (process_job-step jf j user server attempted owner place found
                ∙ process_on_server-step jf user server attempted url token
                ∙ apply_accounts-healthy jf server.id access healthy folders accounts attempted),
      get_desired_enabled_folders_lem user server.id s,
    )
