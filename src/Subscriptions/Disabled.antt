-- ===== src/Subscriptions/Disabled.antt =====
-- app/tasks/disable_expired_users.py: what the accounts that a run disables are left with.
use vodum.Common.{
  any, where_rows, where_rows-delete, ℕ, ◌+◌, ◌≡◌, ◌≤◌, refl, Bool, List, [], ◌∷◌, count_rows,
  delete_rows, length, count_rows-delete_le, All, arith, ◌∙◌, ap, Bool-cases, inl, inr, true, not,
}
use vodum.State.{ok}
use vodum.Media.{queue_access_job, insert_plex_media_job, insert_jellyfin_media_job, plex}
use vodum.Dedupe.Keys.{IsUnique, queue_access_job-IsUnique}
use vodum.Subscriptions.Expiry.{
  Texts, Account, Library, Link, Subscribers, ExpiryMode, is_own_link, is_type, request_of,
  disable_account, disable_accounts, disabled_accounts, disable_expired_users,
  purge_expired_subscription_policies,
}

-- The action of a request is one of those that the queue takes.
disable_account-ok :
    (t : Texts) (a : Account) (s : Subscribers)
    → (added : Bool) × ((disable_account t a s).0 ≡ ok added)
unfolding disable_account insert_plex_media_job insert_jellyfin_media_job queue_access_job
    request_of
disable_account-ok t a s = elim (Bool-cases (is_type a.provider plex)) [
  | inl y ↦ rw y (_, refl)
  | inr n ↦ rw n (_, refl)
]

disable_account-IsUnique :
    (t : Texts) (a : Account) (s : Subscribers)
    → IsUnique s.jobs.rows
    → IsUnique (disable_account t a s).1.jobs.rows
unfolding disable_account insert_plex_media_job insert_jellyfin_media_job
disable_account-IsUnique t a s h = elim (Bool-cases (is_type a.provider plex)) [
  | inl y ↦ rw y (queue_access_job-IsUnique _ s.jobs h)
  | inr n ↦ rw n (queue_access_job-IsUnique _ s.jobs h)
]

-- The state after the loop.
abbrev disabled : Texts → List Account → Subscribers → Subscribers
disabled t [] s = s
disabled t (a ∷ rest) s = disabled t rest (disable_account t a s).1

pub disable_accounts_lem :
    (t : Texts) (rows : List Account) (s : Subscribers)
    → (n : ℕ) × (disable_accounts t rows s ≡ (ok n, disabled t rows s)) × (n ≤ length rows)
unfolding disable_accounts
disable_accounts_lem t [] s = (0, refl, omega arith)
disable_accounts_lem t (a ∷ rest) s =
    let (added, e) = disable_account-ok t a s in
    let (n, others, bound) = disable_accounts_lem t rest (disable_account t a s).1 in
    elim (Bool-cases added) [
      | inl y ↦ (
        n + 1,
        rw (disable_accounts, e, others, y) (ap (λ r. (ok (n + 1), r.1)) others),
        omega (arith, bound),
      )
      | inr o ↦ (
        n,
        rw (disable_accounts, e, others, o) (ap (λ r. (ok n, r.1)) others),
        omega (arith, bound),
      )
    ]

disabled-IsUnique :
    (t : Texts) (rows : List Account) (s : Subscribers)
    → IsUnique s.jobs.rows
    → IsUnique (disabled t rows s).jobs.rows
disabled-IsUnique t [] s h = h
disabled-IsUnique t (a ∷ rest) s h =
    disabled-IsUnique t rest (disable_account t a s).1 (disable_account-IsUnique t a s h)

disabled-le :
    (t : Texts) (q : Link → Bool) (rows : List Account) (s : Subscribers)
    → count_rows q (disabled t rows s).links ≤ count_rows q s.links
unfolding disable_account
disabled-le t q [] s = omega arith
disabled-le t q (a ∷ rest) s = omega (
  arith,
  disabled-le t q rest (disable_account t a s).1,
  count_rows-delete_le q (is_own_link s.libraries a) s.links,
)

count-deleted : (q : Link → Bool) (ks : List Link) → count_rows q (delete_rows q ks) ≡ 0
count-deleted q [] = refl
count-deleted q (k ∷ ks) = ground (arith, count-deleted q ks)

disabled-links :
    (t : Texts) (rows : List Account) (s : Subscribers)
    → All (λ a. count_rows (is_own_link s.libraries a) (disabled t rows s).links ≡ 0) rows
unfolding disable_account
disabled-links t [] s = tt
disabled-links t (a ∷ rest) s = (
  omega (
    arith,
    disabled-le t (is_own_link s.libraries a) rest (disable_account t a s).1,
    count-deleted (is_own_link s.libraries a) s.links,
  ),
  disabled-links t rest (disable_account t a s).1,
)

-- A row that no account of the list has on its server.
abbrev pub is_kept : List Library → List Account → Link → Bool
is_kept libraries rows k = not (any (λ a. is_own_link libraries a k) rows)

-- Rows stay that fit a condition which the rows to be deleted do not fit.
disabled-where :
    (t : Texts) (q : Link → Bool) (rows : List Account) (s : Subscribers)
    → ((k : Link) → q k ≡ true → is_kept s.libraries rows k ≡ true)
    → where_rows q (disabled t rows s).links ≡ where_rows q s.links
unfolding disable_account
disabled-where t q [] s h = refl
disabled-where t q (a ∷ rest) s h =
    disabled-where t q rest (disable_account t a s).1 (λ k e. ground (arith, h k))
    ∙ where_rows-delete q (is_own_link s.libraries a) (λ k e. ground (arith, h k)) s.links

-- A run in the mode that disables raises nothing and counts at most one job for each account that it
-- takes; none of these accounts keeps a library of its server, and no row of another account or of
-- another server's library goes. The keys of active media jobs stay unique.
pub disable_expired_users_lem :
    (t : Texts) (today : ℕ) (s : Subscribers)
    → IsUnique s.jobs.rows
    → let run = disable_expired_users t ExpiryMode.disable today s in
      let taken = disabled_accounts today s in
      ((n : ℕ) × (run.0 ≡ ok n) × (n ≤ length taken))
      × All (λ a. count_rows (is_own_link s.libraries a) run.1.links ≡ 0) taken
      × (where_rows (is_kept s.libraries taken) run.1.links
          ≡ where_rows (is_kept s.libraries taken) s.links)
      × IsUnique run.1.jobs.rows
unfolding disable_expired_users
disable_expired_users_lem t today s h =
    let taken = disabled_accounts today s in
    let start = record s { policies = purge_expired_subscription_policies s.policies } in
    let (n, e, bound) = disable_accounts_lem t taken start in
    rw e (
      (n, refl, bound),
      disabled-links t taken start,
      disabled-where t (is_kept s.libraries taken) taken start (λ k e. e),
      disabled-IsUnique t taken start h,
    )
