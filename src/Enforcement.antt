-- ===== src/Enforcement.antt =====
-- app/tasks/stream_enforcer.py with the modules of app/core that only it uses: the policies and their
-- rules (`Rules`, `Users`, `Evaluate`), the tables (`Store`, `Load`), the short interval (`Boosting`)
-- and the run (`Run`, `Enforce`). The other children hold lemmas and theorems.
mod Rules
mod Users
mod Evaluate
mod Store
mod Boosting
mod Load
mod Run
mod Enforce
pub mod Graces
pub mod Scoping
pub mod Aim
mod Servers
pub mod Targeting
pub mod Misaim
mod Updates
pub mod Memory
pub mod Calls
pub mod Stops
pub mod Warnings
pub mod Pace
pub mod Households
pub mod Ended
unfoldable pub use Rules.*
unfoldable pub use Users.*
unfoldable pub use Evaluate.*
unfoldable pub use Store.*
unfoldable pub use Boosting.*
unfoldable pub use Load.*
unfoldable pub use Run.*
unfoldable pub use Enforce.*
