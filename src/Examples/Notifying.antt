-- ===== src/Examples/Notifying.antt =====
-- The theorems on templates and scheduled notifications at concrete inputs.
use vodum.Common.{
  String, ◌≤◌, ◌≡◌, refl, true, none, some, [], ◌∷◌, any, where_rows, count_rows, arith,
}
use vodum.State.{Provider}
use vodum.Communications.{
  TriggerEvent, TriggerProvider, Direction, SubscriptionScope, Template, Purpose, direction_rank,
  select_best_templates, subscription_scope_rank, provider_rank, SendStatus, Scheduled, Outbox,
  Notification, has_dedupe_key, schedule_template_notification,
}
use vodum.Communications.Directions.{general_template_first}
use vodum.Communications.Sending.{is_alive, is_sent, schedule_template_notification_lem}

-- For both directions, and for a longer subscription only.
abbrev any_change : Template
any_change = record {
  id = 1;
  enabled = true;
  trigger_event = TriggerEvent.expiration_change;
  trigger_provider = TriggerProvider.all_providers;
  expiration_change_direction = Direction.all_ways;
  subscription_scope = SubscriptionScope.all_subscriptions;
  subscription_template_id = none;
  days_before = none;
  days_after = none;
}

abbrev longer : Template
longer = record any_change {
  id = 2;
  expiration_change_direction = Direction.increase;
  subscription_scope = SubscriptionScope.specific;
  subscription_template_id = some 5;
}

abbrev an_increase : Purpose
an_increase = record {
  event = TriggerEvent.expiration_change;
  provider = Provider.plex;
  subscription = some 5;
  direction = some Direction.increase;
}

general_template_first_example :
    (direction_rank an_increase any_change ≡ some 1)
    × (direction_rank an_increase longer ≡ some 2)
    × (select_best_templates an_increase (any_change ∷ longer ∷ []) ≡ any_change ∷ longer ∷ [])
unfolding subscription_scope_rank provider_rank
general_template_first_example =
    general_template_first an_increase Direction.increase any_change longer 2 3 1 1 refl refl refl
      refl refl refl refl refl refl refl refl (omega arith)

abbrev news : Notification
news = record {
  template_id = 2;
  user_id = 4;
  provider = Provider.plex;
  server_id = some 7;
  delay = none;
  payload = "{}";
  dedupe_key = some "news";
  max_attempts = 10;
}

-- The notification had failed for good.
abbrev given_up : Scheduled
given_up = record {
  id = 1;
  template_id = 2;
  vodum_user_id = 4;
  provider = Provider.plex;
  server_id = some 7;
  send_at = 100;
  status = SendStatus.error;
  last_error = some "smtp";
  attempt_count = 10;
  max_attempts = 10;
  next_attempt_at = none;
  last_attempt_at = some 900;
  payload_json = "{}";
  dedupe_key = some "news";
  channels_sent = none;
  created_at = 100;
  updated_at = 900;
}

abbrev outbox : Outbox
outbox = record { rows = given_up ∷ []; next_id = 2; now = 1000 }

schedule_template_notification_lem_example :
    let after = (schedule_template_notification news outbox).1.rows in
    (any (is_alive 10 "news") after ≡ true)
    × (where_rows is_sent after ≡ where_rows is_sent outbox.rows)
    × ((j : String) → count_rows (has_dedupe_key j) after ≤ 1)
schedule_template_notification_lem_example =
    schedule_template_notification_lem "news" news outbox refl refl refl (λ i. ground arith)
      (λ j. ground arith)
