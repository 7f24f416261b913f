-- ===== src/Enforcement/Misaim.antt =====
-- app/tasks/stream_enforcer.py, the rule on addresses per user with the local network allowed: the
-- target is picked from the sessions off the local network, and `run` picks from all of them.
