-- ===== src/Dedupe.antt =====
-- The queue of media jobs, app/core/media_jobs.py and app/tasks/media_jobs_worker.py: the keys of
-- active rows (`Keys`), what a new access job replaces (`Rivals`), the claims of the refresh worker
-- (`Leases`), the fuel of its loop (`Fuel`) and its limit (`Batch`).
pub mod Keys
pub mod Rivals
pub mod Leases
pub mod Fuel
pub mod Batch
