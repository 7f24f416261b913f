-- ===== src/Subscriptions/Tables.antt =====
-- The tables that app/api/subscriptions.py and app/tasks/process_referral_rewards.py read and write,
-- by the columns that they read, and Python's texts of numbers, dates and JSON as parameters.
use vodum.Common.{ℕ, Bool, Option, List, String}
use vodum.State.{Provider}
use vodum.Media.{Jobs}
use vodum.Communications.{Template, Outbox}
use vodum.Subscriptions.Status.{UserStatus, Expiration, Delays}
use vodum.Subscriptions.Expiry.{SystemRule}

-- A row of vodum_users.
pub record Member : Type 0 where
  pub id : ℕ
  pub status : UserStatus
  pub last_status : UserStatus
  pub status_changed_at : Option ℕ
  pub expiration_date : Expiration
  pub subscription_template_id : Option ℕ

-- A row of media_users with the type of its server.
pub record Contact : Type 0 where
  pub id : ℕ
  pub vodum_user_id : ℕ
  pub server_id : ℕ
  pub type : Provider
  pub server_type : Provider
  pub is_owner : Bool
  pub is_accepted : Bool
  pub has_external_id : Bool
  pub is_unfriended : Bool

-- A row of stream_policies; `user_id` is none for another scope.
pub record UserPolicy : Type 0 where
  pub id : ℕ
  pub user_id : Option ℕ
  pub rule : SystemRule

-- `woken` lists the tasks that enable_and_run_task_by_name was called for, the last one first.
pub record Office : Type 0 where
  pub members : List Member
  pub contacts : List Contact
  pub policies : List UserPolicy
  pub templates : List Template
  pub delays : Option Delays
  pub jobs : Jobs
  pub outbox : Outbox
  pub woken : List String

-- `json` is the JSON of a payload by the numbers in it.
pub record Formats : Type 0 where
  pub digits : ℕ → String
  pub iso : ℕ → String
  pub json : List ℕ → String
