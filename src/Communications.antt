-- ===== src/Communications.antt =====
-- The notifications of users: which template is taken (`Templates`; `Choice`, `Directions`), and the
-- rows that wait to be sent (`Queue`; `Sending`).
mod Templates
mod Queue
unfoldable pub use Templates.*
unfoldable pub use Queue.*
pub mod Choice
pub mod Directions
pub mod Sending
