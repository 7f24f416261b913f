-- ===== src/Examples/Rewards.antt =====
-- The theorems on referrals and on a user's new date at concrete inputs.
use vodum.Common.{
  ℕ, ◌==◌, ◌≤◌, ◌≡◌, refl, true, false, not, ◌&&◌, none, some, [], ◌∷◌, String, count_rows,
  update_rows, arith, if◌then◌else◌,
}
use vodum.Tasks.{Error}
use vodum.State.{Provider, ok, raised}
use vodum.Media.{JobStatus, AccessRequest, plex, has_running_access_job}
use vodum.Communications.{
  TriggerEvent, TriggerProvider, Direction, SubscriptionScope, Template, subscription_scope_rank,
  provider_rank, select_best_templates, select_comm_template_for_user,
  select_comm_templates_for_user, candidates, best_by_slot,
}
use vodum.Subscriptions.{UserStatus, Expiration, parse_iso_date}
use vodum.Subscriptions.Tables.{Member, Contact, Office, Formats}
use vodum.Subscriptions.Update.{
  update_user_expiration, comm_contexts, settle_update, remove_expired_subscription_policy_for_user,
  notify_change, first_choice, normalized_contexts,
}
use vodum.Subscriptions.Reactivation.{running_of, reactivation_hides_running}
use vodum.Referrals.{
  ReferralStatus, Referral, ReferralSettings, Program, Due, is_referral, is_overdue,
  process_referrals, process_referral_rewards, referral_cleanup, base_day,
}
use vodum.Referrals.Steps.{IsOnce}
use vodum.Referrals.Paid.{IsPaid}
use vodum.Referrals.Granted.{Step, Reach, Reach-IsOnce}
use vodum.Referrals.Lost.{IsNotified, IsGranted, granted_row, is_given_up, notified_reward_aborts}
use vodum.Examples.Jobs.{waiting_job, jobs_of}

-- A referral whose three days of reward are due on day 100.
abbrev referral : Referral
referral = record {
  id = 1;
  referrer_user_id = 5;
  referred_user_id = 6;
  status = ReferralStatus.pending;
  qualification_due_at = some 8640000;
  qualified_at = none;
  reward_days_snapshot = 3;
  reward_granted_at = none;
  reward_expiration_before = Expiration.missing;
  reward_expiration_after = none;
  expired_at = none;
  archived_at = none;
  last_error = none;
}

abbrev second_referral : Referral
second_referral = record referral { id = 2; referred_user_id = 8 }

abbrev settings : ReferralSettings
settings = record {
  enabled = true;
  reward_enabled = true;
  auto_notify_reward = true;
  eligible_statuses = UserStatus.active ∷ [];
  auto_expire_pending = true;
  auto_archive_rewarded = true;
  auto_archive_expired = true;
  rewarded_archive_days = 90;
  expired_archive_days = 30;
}

abbrev member : ℕ → Member
member i = record {
  id = i;
  status = UserStatus.active;
  last_status = UserStatus.active;
  status_changed_at = none;
  expiration_date = Expiration.day 120;
  subscription_template_id = none;
}

abbrev contact : Contact
contact = record {
  id = 1;
  vodum_user_id = 5;
  server_id = 7;
  type = Provider.plex;
  server_type = Provider.plex;
  is_owner = false;
  is_accepted = true;
  has_external_id = true;
  is_unfriended = false;
}

abbrev thanks : Template
thanks = record {
  id = 4;
  enabled = true;
  trigger_event = TriggerEvent.referral_reward;
  trigger_provider = TriggerProvider.all_providers;
  expiration_change_direction = Direction.all_ways;
  subscription_scope = SubscriptionScope.no_scope;
  subscription_template_id = none;
  days_before = none;
  days_after = none;
}

abbrev office : Office
office = record {
  members = member 5 ∷ member 6 ∷ member 8 ∷ [];
  contacts = contact ∷ [];
  policies = [];
  templates = thanks ∷ [];
  delays = none;
  jobs = jobs_of [];
  outbox = record { rows = []; next_id = 1; now = 8700000 };
  woken = [];
}

abbrev program : Program
program = record {
  settings = some settings;
  referrals = referral ∷ second_referral ∷ [];
  events = [];
  office = office;
}

-- The text of 0, and one text for every other number.
abbrev formats : Formats
formats = record { digits = digit; iso = digit; json = λ ns. "{}" }
  where
    digit : ℕ → String
    digit n = if n == 0 then "0" else "1"

abbrev joined : Referral → Due
joined r = record { referral = r; referred_status = UserStatus.active }

abbrev after_runs : Program
after_runs = referral_cleanup 8800000 (process_referral_rewards formats 100 8700000 program).1

Reach-IsOnce_example :
    IsOnce after_runs × IsPaid formats settings 101 8900000 (joined second_referral) after_runs
Reach-IsOnce_example =
    Reach-IsOnce formats settings 101 8900000 (joined second_referral)
      (Reach.next (Reach.next Reach.here (Step.rewards formats 100 8700000)) (Step.cleanup 8800000))
      (λ i. ground arith)

abbrev after_move : Office
after_move = (update_user_expiration formats 100 8700000 5 123 office).1

referrer-moves : (update_user_expiration formats 100 8700000 5 123 office).0 ≡ ok true
unfolding update_user_expiration settle_update remove_expired_subscription_policy_for_user
referrer-moves = refl

thanks_for_five : IsNotified settings referral after_move
unfolding update_user_expiration settle_update notify_change first_choice normalized_contexts
    comm_contexts remove_expired_subscription_policy_for_user select_comm_template_for_user
    select_comm_templates_for_user select_best_templates best_by_slot candidates
    subscription_scope_rank provider_rank
thanks_for_five = record {
  contact = contact;
  template = thanks;
  asked = refl;
  reached = refl;
  chosen = refl;
}

first_is_granted : IsGranted formats settings 100 8700000 (joined referral) program
unfolding base_day parse_iso_date
first_is_granted = record {
  referrer = member 5;
  eligible = refl;
  found = refl;
  moved = referrer-moves;
  notified = thanks_for_five;
}

notified_reward_aborts_example :
    let run =
      process_referrals formats settings 100 8700000
        (joined referral ∷ joined second_referral ∷ [])
        program in
    ((e : Error) × (run.0 ≡ raised e))
    × (run.1.referrals
        ≡ update_rows (is_referral 1) (granted_row first_is_granted) program.referrals)
    × (count_rows (λ r. not (is_referral 1 r) && is_overdue 8800000 r) program.referrals
        ≤ count_rows (is_given_up 8800000) (referral_cleanup 8800000 run.1).referrals)
notified_reward_aborts_example =
    notified_reward_aborts formats settings 100 8700000 8800000 (joined referral)
      (joined second_referral ∷ []) program first_is_granted refl refl

-- A worker is at a job of the user.
-- The member is expired, and a worker is at the job that takes the access away.
abbrev closing_office : Office
closing_office = record office {
  members = record (member 5) { status = UserStatus.expired } ∷ [];
  jobs = jobs_of (
      record waiting_job {
        status = JobStatus.running;
        locked_by = some 31;
        locked_until = some 1200;
      }
      ∷ []);
}

reactivation_hides_running_example :
    let jobs = (update_user_expiration formats 100 8700000 5 123 closing_office).1.jobs in
    (running_of 5 jobs ≡ 0)
    × ((r : AccessRequest)
        → r.provider ≡ plex
        → r.vodum_user_id ≡ 5
        → has_running_access_job r jobs ≡ false)
reactivation_hides_running_example =
    reactivation_hides_running formats 100 8700000 5 123
      (record (member 5) { status = UserStatus.expired }) closing_office refl refl
