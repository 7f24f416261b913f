-- ===== src/Policies.antt =====
-- The rules of the stream enforcer, under app/core: stream_policy_utils.py, stream_policy_scope.py
-- and stream_violation_recheck.py (`Scope`), policy_transition_grace.py (`Grace`),
-- stream_session_identity.py (`Identity`, `Endpoint`), stream_media_transition.py (`Endpoint`,
-- `Keys`), stream_ip_transition_grace.py (`Transition`), stream_sync_dedupe.py (`Sync`) and
-- stream_household_dedupe.py (`Household`).
mod Scope
mod Grace
mod Identity
mod Endpoint
mod Keys
mod Transition
mod Sync
mod Household
unfoldable pub use Scope.*
unfoldable pub use Grace.*
unfoldable pub use Identity.*
unfoldable pub use Endpoint.*
unfoldable pub use Keys.*
unfoldable pub use Transition.*
unfoldable pub use Sync.*
unfoldable pub use Household.*
