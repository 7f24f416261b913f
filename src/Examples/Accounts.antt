-- ===== src/Examples/Accounts.antt =====
-- The theorems on the status of users and on expired users at concrete inputs.
use vodum.Common.{
  some, length, All, count_rows, where_rows, ◌≤◌, ◌≡◌, ℕ, refl, true, false, none, [], ◌∷◌, arith,
}
use vodum.Subscriptions.{
  user_has_pending_plex_invite, User, UserStatus, Expiration, Delays, MediaUser, update_user,
  is_orphan,
}
use vodum.State.{ok}
use vodum.Media.{JobProvider}
use vodum.Dedupe.Keys.{IsUnique}
use vodum.Subscriptions.Expiry.{
  Texts, Account, Subscribers, ExpiryMode, SystemRule, disable_expired_users, disabled_accounts,
  is_own_link, is_selected, is_invited_only,
}
use vodum.Subscriptions.Disabled.{disable_expired_users_lem, is_kept}
use vodum.Subscriptions.Suspension.{suspension_is_lost}
use vodum.Subscriptions.Daily.{update_user_idem}
use vodum.Subscriptions.Manager.{ScopedPolicy, Managed, ManagerMode, manage_expired}
use vodum.Subscriptions.Manager.Finding.{is_system}
use vodum.Subscriptions.Manager.Effects.{IsTidy}
use vodum.Subscriptions.Manager.Orphans.{IsUntouched}
use vodum.Subscriptions.Manager.Warned.{expected, or_week, manage_expired_lem}

abbrev delays : Delays
delays = record { preavis_days = 30; reminder_days = 7; default_subscription_days = 90 }

abbrev plex_account : MediaUser
plex_account = record {
  is_plex = true;
  is_accepted = true;
  is_pending = false;
  has_external_id = true;
  has_name = true;
}

-- An override is due: the day 100 is within the notice of 30 days at the day 80.
abbrev subscriber : User
subscriber = record {
  status = UserStatus.pre_expired;
  last_status = UserStatus.active;
  status_changed_at = none;
  expiration_date = Expiration.day 100;
  expiration_date_override = true;
  is_lifetime = false;
  media_users = plex_account ∷ [];
}

abbrev suspended_user : User
suspended_user = record subscriber {
  status = UserStatus.suspended;
  expiration_date = Expiration.missing;
  media_users = [];
}

update_user_idem_example :
    update_user delays 80 2000 (update_user delays 80 1000 subscriber)
    ≡ update_user delays 80 1000 subscriber
unfolding is_orphan
update_user_idem_example = update_user_idem delays 80 1000 2000 subscriber refl (omega arith)

suspension_is_lost_example :
    let first = update_user delays 80 1000 suspended_user in
    (first.status ≡ UserStatus.expired)
    × ((update_user delays 80 2000 first).status ≡ UserStatus.active)
suspension_is_lost_example =
    suspension_is_lost delays 80 1000 2000 suspended_user refl refl refl refl refl

abbrev texts : Texts
texts = record { digits = λ n. "4"; payload = λ user account. "{}" }

-- An account on Plex whose subscription ended on the day 70, with one library.
abbrev plex_row : Account
plex_row = record {
  media_user_id = 7;
  vodum_user_id = 4;
  server_id = 4;
  provider = some JobProvider.plex;
  server_provider = some JobProvider.plex;
  invite = plex_account;
}

abbrev expired_users : Subscribers
expired_users = record {
  policies = record { is_of_user = true; rule = SystemRule.tagged } ∷ [];
  users = record { id = 4; expires = some 70 } ∷ [];
  accounts = plex_row ∷ [];
  libraries = record { id = 2; server_id = 4; provider = some JobProvider.plex } ∷ [];
  links = record { media_user_id = 7; library_id = 2 } ∷ [];
  jobs = record { rows = []; next_id = 1; now = 1000 };
}

-- The account is taken, and its job is added.
takes_the_account : disabled_accounts 80 expired_users ≡ plex_row ∷ []
unfolding disabled_accounts is_selected is_invited_only user_has_pending_plex_invite
takes_the_account = refl

disable_expired_users_lem_example :
    let run = disable_expired_users texts ExpiryMode.disable 80 expired_users in
    let taken = disabled_accounts 80 expired_users in
    ((n : ℕ) × (run.0 ≡ ok n) × (n ≤ length taken))
    × All (λ a. count_rows (is_own_link expired_users.libraries a) run.1.links ≡ 0) taken
    × (where_rows (is_kept expired_users.libraries taken) run.1.links
        ≡ where_rows (is_kept expired_users.libraries taken) expired_users.links)
    × IsUnique run.1.jobs.rows
disable_expired_users_lem_example =
    disable_expired_users_lem texts 80 expired_users (record { at_key = λ k. omega arith })

-- Of three users with a past day one was warned before; the day of the last one is longer ago than
-- the delay. A fourth one came back, and the last policy is of nobody.
abbrev warning_of : ℕ → ℕ → ScopedPolicy
warning_of i user = record {
  id = i;
  is_of_user = true;
  scope_id = some user;
  rule = SystemRule.tagged;
}

abbrev managed_users : Managed
managed_users = record {
  policies = warning_of 1 5 ∷ warning_of 2 6 ∷ warning_of 3 7 ∷ warning_of 4 9 ∷ [];
  next_id = 5;
  users =
      record { id = 4; expires = some (some 78) }
      ∷ record { id = 5; expires = some (some 79) }
      ∷ record { id = 6; expires = some (some 60) }
      ∷ record { id = 7; expires = some (some 90) }
      ∷ [];
  tasks = [];
  access = expired_users;
}

managed_users-IsTidy : IsTidy managed_users.policies managed_users.next_id
managed_users-IsTidy = record {
  ids = λ i. ground arith;
  fresh = λ i le. ground arith;
  once = λ i. ground arith;
  objects = refl;
}

manage_expired_lem_example :
    let run = manage_expired texts ManagerMode.warn_then_disable 7 80 1000 managed_users in
    (run.0 ≡ ok tt)
    × ((i : ℕ)
        → count_rows (is_system i) run.1.policies
          ≡ expected ManagerMode.warn_then_disable
              (or_week 7)
              80
              i
              managed_users.users
              (count_rows (is_system i) managed_users.policies))
    × IsUntouched managed_users.policies run.1.policies
    × IsTidy run.1.policies run.1.next_id
manage_expired_lem_example =
    manage_expired_lem texts ManagerMode.warn_then_disable 7 80 1000 managed_users (λ e. absurd cc)
      (λ i. ground arith) managed_users-IsTidy
