-- ===== src/Dedupe/Rivals.antt =====
-- What `queue_access_job` leaves of the jobs that a new access job replaces.
use vodum.Common.{
  ℕ, ◌+◌, ◌≡◌, refl, Bool, true, false, not, ◌&&◌, Option, none, some, List, [], ◌∷◌, ◌++◌, String,
  ltb, count_rows, where_rows, update_rows, count_rows-delete_le, count_rows-update_zero,
  where_rows-update, where_rows-delete, arith, if◌then◌else◌, Bool-cases, inl, inr, ◌∙◌,
}
use vodum.State.{ok}
use vodum.Media.{
  MediaJob, JobProvider, same_provider, plex, jellyfin, is_running, is_access, is_active, has_key,
  Jobs, AccessRequest, is_waiting_rival, cancel_row, new_job, cleared, insert_or_ignore,
  has_running_access_job, queued_after_running_key, queue_access_job,
}

abbrev pub is_underway : MediaJob → Bool
is_underway j = is_running j.status && not j.processed

cleared-none :
    (r : AccessRequest) (key : String) (s : Jobs)
    → count_rows (is_waiting_rival r) (cleared r key s).rows ≡ 0
cleared-none r key s = omega (
  arith,
  count_rows-delete_le (is_waiting_rival r) (λ j. has_key key j && j.processed)
      (update_rows (is_waiting_rival r) (cancel_row s.now) s.rows),
  count_rows-update_zero (is_waiting_rival r) (cancel_row s.now) (λ j. ground arith) s.rows,
)

cleared-underway :
    (r : AccessRequest) (key : String) (s : Jobs)
    → where_rows is_underway (cleared r key s).rows ≡ where_rows is_underway s.rows
cleared-underway r key s =
    where_rows-delete is_underway (λ j. has_key key j && j.processed) (λ j p. ground arith)
      (update_rows (is_waiting_rival r) (cancel_row s.now) s.rows)
    ∙ where_rows-update is_underway (is_waiting_rival r) (cancel_row s.now) (λ j p. ground arith)
        (λ j p. ground arith) s.rows

-- The key under which the job is queued, and the time before which it may not start.
abbrev key_of : AccessRequest → Jobs → String
key_of r s =
    if has_running_access_job r s then queued_after_running_key r.dedupe_key else r.dedupe_key

abbrev delay_of : AccessRequest → Jobs → Option ℕ
delay_of r s = if has_running_access_job r s then some (s.now + 120) else none

count-one :
    (q : MediaJob → Bool) (js : List MediaJob) (j : MediaJob)
    → count_rows q js ≡ 0
    → q j ≡ true
    → count_rows q (js ++ j ∷ []) ≡ 1
count-one q [] j empty fits = ground arith
count-one q (k ∷ js) j empty fits = ground (arith, count-one q js j)

where-new :
    (q : MediaJob → Bool) (js : List MediaJob) (j : MediaJob)
    → q j ≡ false
    → where_rows q (js ++ j ∷ []) ≡ where_rows q js
where-new q [] j out = ground arith
where-new q (k ∷ js) j out = ground (arith, where-new q js j)

same_provider_refl : (p : JobProvider) → same_provider p p ≡ true
same_provider_refl plex = refl
same_provider_refl jellyfin = refl

new-waits :
    (r : AccessRequest) (key : String) (at : Option ℕ) (s : Jobs)
    → is_access r.action ≡ true
    → is_waiting_rival r (new_job r key at s) ≡ true
new-waits r key at s h = ground (arith, same_provider_refl r.provider)

abbrev queued_job : AccessRequest → Jobs → MediaJob
queued_job r s = new_job r (key_of r s) (delay_of r s) (cleared r (key_of r s) s)

-- The keys of active rows, once the waiting rivals are gone.
abbrev is_taken : AccessRequest → Jobs → Bool
is_taken r s =
    ltb 0 (count_rows (λ j. is_active j && has_key (key_of r s) j) (cleared r (key_of r s) s).rows)

-- For an access action: the job is added unless an active row that is no waiting rival holds its
-- key, which is the second key if one of the user's access jobs on the server is running. The user
-- has then one waiting job there if it was added and none if not, and no running job was touched.
pub queue_access_job_lem :
    (r : AccessRequest) (s : Jobs)
    → is_access r.action ≡ true
    → let out = (queue_access_job r s).0 in
      let s' = (queue_access_job r s).1 in
      (out ≡ ok (not (is_taken r s)))
      × (count_rows (is_waiting_rival r) s'.rows ≡ (if is_taken r s then 0 else 1))
      × (where_rows is_underway s'.rows ≡ where_rows is_underway s.rows)
unfolding queue_access_job insert_or_ignore
queue_access_job_lem r s h = elim (Bool-cases (is_taken r s)) [
  | inl taken ↦
      rw (h, taken) (refl, cleared-none r (key_of r s) s, cleared-underway r (key_of r s) s)
  | inr free ↦
      rw (h, free)
        (
          refl,
          count-one (is_waiting_rival r) _ _ (cleared-none r (key_of r s) s)
              (new-waits r (key_of r s) (delay_of r s) (cleared r (key_of r s) s) h),
          where-new is_underway (cleared r (key_of r s) s).rows (queued_job r s) refl
              ∙ cleared-underway r (key_of r s) s,
        )
]
