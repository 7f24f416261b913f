-- ===== src/Referrals.antt =====
-- The referrals of users: the tables (`Tables`), app/tasks/process_referral_rewards.py (`Rewards`) and
-- app/tasks/referral_cleanup.py (`Cleanup`). What one referral changes (`Steps`, `Paid`), what follows over
-- all runs (`Granted`), and a run that ends at a notification (`Lost`).
mod Tables
mod Rewards
mod Cleanup
unfoldable pub use Tables.*
unfoldable pub use Rewards.*
unfoldable pub use Cleanup.*
pub mod Lost
pub mod Steps
pub mod Paid
pub mod Granted
