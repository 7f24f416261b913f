-- ===== src/Enforcement/Pace.antt =====
-- app/core/stream_enforcer_boost.py: how long the task runs at the short interval.
