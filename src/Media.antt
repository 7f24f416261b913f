-- ===== src/Media.antt =====
-- The `media_jobs` table and the two modules that work on it: app/core/media_jobs.py, which queues
-- access jobs (`Access`), and app/tasks/media_jobs_worker.py, which runs refresh jobs (`Refresh`).
mod Table
mod Access
mod Refresh
mod Enforcer
unfoldable pub use Table.*
unfoldable pub use Access.*
unfoldable pub use Refresh.*
unfoldable pub use Enforcer.*
