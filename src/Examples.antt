-- ===== src/Examples.antt =====
-- The theorems at concrete inputs, with some runs of the code: the scheduler's tasks (`Scheduling`),
-- media jobs and sequences (`Jobs`), the enforcer (`Enforcing` and `Stopping`, with the sessions of
-- `Sessions`), the users (`Accounts`), the backups (`Files`), the notifications (`Notifying`), the
-- referrals (`Rewards`) and the worker of Jellyfin (`Delivering`).
pub mod Scheduling
pub mod Jobs
pub mod Sessions
pub mod Enforcing
pub mod Stopping
pub mod Accounts
pub mod Files
pub mod Notifying
pub mod Rewards
pub mod Delivering
