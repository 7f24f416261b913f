-- ===== src/WellFormed.antt =====
-- The invariant of the `tasks` table (tables.sql): for rows (`Rows`) and tables (`Table`), for single
-- operations (`Configuration`, `Operations`), for runs (`Runs`), and for everything in any order (`Reach`).
mod Rows
mod Table
mod Configuration
mod Operations
mod Runs
pub mod Reach
pub use Table.*
pub use Rows.*
pub use Configuration.*
pub use Runs.*
pub use Operations.*
