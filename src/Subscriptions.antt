-- ===== src/Subscriptions.antt =====
-- The subscriptions of users: app/tasks/update_user_status.py (`Status`), app/tasks/disable_expired_users.py
-- (`Expiry`), app/tasks/expired_subscription_manager.py (`Manager`) and app/api/subscriptions.py (`Tables`,
-- `Update`). The loop that moves an expiry (`Renewal`), a second run on one day (`Settled`, `Daily`), the
-- statuses set by hand (`Suspension`), the accounts that lose their libraries (`Disabled`) and the jobs
-- of a user who comes back (`Reactivation`).
mod Status
unfoldable pub use Status.*
pub mod Renewal
pub mod Settled
pub mod Suspension
pub mod Daily
pub mod Expiry
pub mod Disabled
pub mod Tables
pub mod Update
pub mod Reactivation
pub mod Manager
