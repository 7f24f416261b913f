-- ===== src/Subscriptions/Reactivation.antt =====
-- app/api/subscriptions.py: the jobs of a user who is expired no more.
use vodum.Common.{
  String, sym, ℕ, ◌+◌, ◌==◌, ◌≡◌, ◌≤◌, refl, Bool, true, false, ◌&&◌, Option, none, some, List, [],
  ◌∷◌, any, ltb, leb, count_rows, count_rows-append, count_rows-update_le, count_rows-delete_le,
  update_rows, find_row, find_row_fits, if◌then◌else◌, arith, Bool-cases, Option-cases, inl, inr,
  ◌∙◌, subst, ap,
}
use vodum.State.{Result, Result-cases, ok, raised}
use vodum.Media.{
  MediaJob, Jobs, AccessRequest, plex, same_provider, is_access, is_running, is_active, equals,
  is_rival, is_live, has_key, is_waiting_rival, cancel_row, has_running_access_job,
  queue_access_job, insert_or_ignore, new_job, cleared, queued_after_running_key,
  insert_plex_media_job,
}
use vodum.Communications.{schedule_template_notification, Direction}
use vodum.Subscriptions.Status.{UserStatus}
use vodum.Subscriptions.Tables.{UserPolicy, Member, Contact, Office, Formats}
use vodum.Subscriptions.Update.{
  is_member, is_open_plex_job, sync_request, close_row, cleanup_pending_plex_jobs_for_user,
  plex_contacts, queue_syncs, comm_contexts, normalized_contexts, or_fallback, first_choice,
  change_of, notify_change, new_status_of, set_expiration, status_or, is_reactivated, reactivate,
  remove_expired_subscription_policy_for_user, settle_rest, settle_update, update_user_expiration,
}

-- A Plex job on the access of the user that a worker is at.
abbrev pub is_run_for : ℕ → MediaJob → Bool
is_run_for user j =
    equals j.vodum_user_id user
    && (same_provider j.provider plex && (is_access j.action && is_running j.status))

abbrev pub running_of : ℕ → Jobs → ℕ
running_of user s = count_rows (is_run_for user) s.rows

closed-none :
    (user now : ℕ) (rows : List MediaJob)
    → count_rows (is_run_for user) (update_rows (is_open_plex_job user) (close_row now) rows) ≡ 0
closed-none user now [] = refl
closed-none user now (j ∷ js) = ground (arith, closed-none user now js)

insert-running :
    (user : ℕ) (key : String) (r : AccessRequest) (after : Option ℕ) (s : Jobs)
    → running_of user (insert_or_ignore key (new_job r key after) s).1 ≤ running_of user s
unfolding insert_or_ignore
insert-running user key r after s =
    elim (Bool-cases (ltb 0 (count_rows (λ j. is_active j && has_key key j) s.rows))) [
      | inl held ↦ rw held (omega arith)
      | inr free ↦
          rw free (
            ground (arith, count_rows-append (is_run_for user) s.rows (new_job r key after s ∷ [])))
    ]

cleared-running :
    (user : ℕ) (r : AccessRequest) (key : String) (s : Jobs)
    → running_of user (cleared r key s) ≤ running_of user s
cleared-running user r key s = omega (
  arith,
  count_rows-delete_le (is_run_for user) (λ j. has_key key j && j.processed)
      (update_rows (is_waiting_rival r) (cancel_row s.now) s.rows),
  count_rows-update_le (is_run_for user) (is_waiting_rival r) (cancel_row s.now)
      (λ j h e. ground (arith, e)) s.rows,
)

queue-running :
    (user : ℕ) (r : AccessRequest) (s : Jobs)
    → running_of user (queue_access_job r s).1 ≤ running_of user s
unfolding queue_access_job
queue-running user r s =
    let running = has_running_access_job r s in
    let key = if running then queued_after_running_key r.dedupe_key else r.dedupe_key in
    let after : Option ℕ = if running then some (s.now + 120) else none in
    elim (Bool-cases (is_access r.action)) [
      | inr other ↦ rw other (omega arith)
      | inl known ↦ rw known (
          omega (
            arith,
            insert-running user key r after (cleared r key s),
            cleared-running user r key s,
          ))
    ]

plex-running :
    (user : ℕ) (r : AccessRequest) (s : Jobs)
    → running_of user (insert_plex_media_job r s).1 ≤ running_of user s
unfolding insert_plex_media_job
plex-running user r s = queue-running user (record r { provider = plex }) s

syncs-running :
    (f : Formats) (user : ℕ) (old new : UserStatus) (seen : List ℕ) (cs : List Contact) (s : Jobs)
    → running_of user (queue_syncs f user old new seen cs s).1 ≤ running_of user s
unfolding queue_syncs
syncs-running f user old new seen [] s = omega arith
syncs-running f user old new seen (c ∷ cs) s =
    let queued = insert_plex_media_job (sync_request f user old new c) s in
    let one = plex-running user (sync_request f user old new c) s in
    let others = syncs-running f user old new (c.server_id ∷ seen) cs queued.1 in
    elim (Bool-cases (any (λ i. i == c.server_id) seen)) [
      | inl again ↦ rw again (syncs-running f user old new seen cs s)
      | inr fresh ↦ elim (Result-cases queued.0) [
        | inr (failure, e) ↦ rw (fresh, e) one
        | inl (added, e) ↦
            elim (Result-cases (queue_syncs f user old new (c.server_id ∷ seen) cs queued.1).0) [
              | inr (failure, g) ↦ rw (fresh, e, g) (omega (arith, one, others))
              | inl (n, g) ↦ rw (fresh, e, g) (omega (arith, one, others))
            ]
      ]
    ]

reactivate-none :
    (f : Formats) (user : ℕ) (old effective : UserStatus) (o : Office)
    → running_of user (reactivate f user old effective o).1.jobs ≡ 0
unfolding reactivate cleanup_pending_plex_jobs_for_user
reactivate-none f user old effective o =
    let closed = cleanup_pending_plex_jobs_for_user user o.jobs in
    let contacts = plex_contacts user o.contacts in
    let none_left : running_of user (queue_syncs f user old effective [] contacts closed).1 ≡ 0 =
      omega (
        arith,
        syncs-running f user old effective [] contacts closed,
        closed-none user o.jobs.now o.jobs.rows,
      ) in
    elim (Result-cases (queue_syncs f user old effective [] contacts closed).0) [
      | inl (n, e) ↦ rw (reactivate, e) none_left
      | inr (failure, e) ↦ rw (reactivate, e) none_left
    ]

notify_change-jobs :
    (f : Formats) (user : ℕ) (subscription : Option ℕ) (old new : ℕ) (o : Office)
    → (notify_change f user subscription old new o).jobs ≡ o.jobs
unfolding notify_change
notify_change-jobs f user subscription old new o = elim (Bool-cases (old == new)) [
  | inl same ↦ rw same refl
  | inr other ↦
      let chosen =
        first_choice subscription (if ltb old new then Direction.increase else Direction.decrease)
          o.templates (or_fallback (normalized_contexts [] (comm_contexts user o.contacts))) in
      elim (Option-cases chosen) [
        | inl missing ↦ rw (notify_change, other, missing) refl
        | inr (choice, found) ↦
            elim (Result-cases
              (schedule_template_notification (change_of f user old new choice) o.outbox).0) [
                | inl (added, e) ↦ rw (notify_change, other, found, e) refl
                | inr (failure, e) ↦ rw (notify_change, other, found, e) refl
              ]
      ]
]

settle_rest-jobs :
    (f : Formats) (today new : ℕ) (m : Member) (r : Result (Unit {0})) (o : Office)
    → (settle_rest f today new m (r, o)).1.jobs ≡ o.jobs
settle_rest-jobs f today new m (raised e) o = refl
settle_rest-jobs f today new m (ok _) o =
    let removed : Result ℕ × List UserPolicy =
      if leb today new
      then remove_expired_subscription_policy_for_user m.id o.policies
      else (ok 0, o.policies) in
    elim (Result-cases removed.0) [
      | inr (failure, g) ↦ rw (settle_rest, g) refl
      | inl (n, g) ↦
          rw (settle_rest, g)
            (notify_change-jobs f m.id _ _ new (record o { policies = removed.1 }))
    ]

settle-none :
    (f : Formats) (today new : ℕ) (m : Member) (effective : UserStatus) (o : Office)
    → is_reactivated m.status effective new today ≡ true
    → running_of m.id (settle_update f today new m effective o).1.jobs ≡ 0
unfolding settle_update
settle-none f today new m effective o back =
    let r = reactivate f m.id m.status effective o in
    rw back (
      ap (running_of m.id) (settle_rest-jobs f today new m r.0 r.1)
      ∙ reactivate-none f m.id m.status effective o)

not-live :
    (r : AccessRequest) (now : ℕ) (rows : List MediaJob)
    → r.provider ≡ plex
    → count_rows (is_run_for r.vodum_user_id) rows ≡ 0
    → count_rows (λ j. is_rival r j && is_live now j) rows ≡ 0
not-live r now [] e h = refl
not-live r now (j ∷ js) e h =
    let same : same_provider j.provider r.provider ≡ same_provider j.provider plex =
      ap (same_provider j.provider) e in
    ground (arith, h, same, not-live r now js e)

has_running-none :
    (r : AccessRequest) (s : Jobs)
    → r.provider ≡ plex
    → running_of r.vodum_user_id s ≡ 0
    → has_running_access_job r s ≡ false
unfolding has_running_access_job
has_running-none r s e h = rw (not-live r s.now s.rows e h) refl

-- When a user who has expired is given a date that is not past, or one by which the user is expired no
-- more, no Plex job on the user's access counts as running any more, also where a worker is at one, and so
-- a later job for the user is not held back behind it.
pub reactivation_hides_running :
    (f : Formats) (today now user new : ℕ) (m : Member) (o : Office)
    → find_row (is_member user) o.members ≡ some m
    → is_reactivated m.status (status_or (new_status_of o.delays today new) m.status) new today
      ≡ true
    → let jobs = (update_user_expiration f today now user new o).1.jobs in
      (running_of user jobs ≡ 0)
      × ((r : AccessRequest)
          → r.provider ≡ plex
          → r.vodum_user_id ≡ user
          → has_running_access_job r jobs ≡ false)
unfolding update_user_expiration
reactivation_hides_running f today now user new m o found back =
    let status = new_status_of o.delays today new in
    let o' = record o {
      members = update_rows (is_member user) (set_expiration now new status) o.members;
    } in
    let own : m.id ≡ user = ground (arith, find_row_fits (is_member user) o.members m found) in
    let none_left : running_of user
          (settle_update f today new m (status_or status m.status) o').1.jobs
        ≡ 0 =
      subst
        (λ u. running_of u (settle_update f today new m (status_or status m.status) o').1.jobs ≡ 0)
        own (settle-none f today new m (status_or status m.status) o' back) in
    let jobs = (settle_update f today new m (status_or status m.status) o').1.jobs in
    rw (update_user_expiration, found)
      (
        none_left,
        λ r on_plex mine.
            has_running-none r jobs on_plex
              (subst (λ u. running_of u jobs ≡ 0) (sym mine) none_left),
      )
