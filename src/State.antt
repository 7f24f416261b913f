-- ===== src/State.antt =====
-- The state of the scheduler's code and the actions on it (`State.Defs`), with the rules for what
-- an action keeps (`State.Preserve`) and for actions without refusals (`State.Silence`).
mod Defs
mod Preserve
mod Silence
unfoldable pub use Defs.*
pub use Preserve.*
pub use Silence.*
