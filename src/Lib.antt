-- ===== src/Lib.antt =====
-- VODUM keeps its background work in SQLite: a scheduler thread ticks over the rows of `tasks` and
-- queues those that are due, one worker thread runs the queued tasks, and the tasks in turn fill and
-- empty `media_jobs`. This library models that core: app/tasks_engine.py, app/core/tasks/, the queue
-- of media jobs in app/core/media_jobs.py and app/tasks/media_jobs_worker.py, the task that
-- enforces stream policies, app/tasks/stream_enforcer.py with the modules of app/core that it uses,
-- the tasks on subscriptions and referrals, the worker that brings libraries to Jellyfin, the choice
-- and the queue of notifications, and the retention of backups.
--
-- How the parts interact. `start` (app/core/tasks/runtime.py) starts the watchdog and the loop; the
-- loop recovers the table, then calls `TaskScheduler.tick` (app/core/tasks/scheduler.py), which calls
-- the automatic enablement and, for each row that is due, `enqueue_task` (app/tasks_engine.py).
-- `enqueue_task` writes the row and starts the worker, if the lease is free. The worker takes the
-- first queued row, runs it by `TaskExecutionRunner.run` (app/core/tasks/execution.py), which calls
-- back into app/tasks_engine.py for the states before and after, and gives the lease back at the end.
-- Web code calls the same entry points, switches tasks on and off, and submits sequences of tasks.
--
-- One of these tasks is the stream enforcer. Its `run` loads the policies and the live sessions,
-- evaluates each policy into violations, and for each violation picks a session, warns its user,
-- waits, evaluates the policy again and stops the session that is picked then. Four caches outlive a
-- run; they hold graces and what was seen of late.
--
-- Others change what users may see. `update_user_expiration` (app/api/subscriptions.py) gives a user a
-- new date; it closes the old jobs of a user who comes back, queues new ones in `media_jobs`, and
-- schedules a notification from the first template that is selected. The reward of referrals
-- calls it, then schedules a notification of its own. One task warns users whose subscription has
-- ended by a policy of the stream enforcer, and one takes their libraries away, by jobs of the same
-- queue. app/tasks/apply_jellyfin_access_updates.py takes the jobs for Jellyfin from it, passing over
-- the servers that are in a pause.
--
-- Which file models which part:
--   Tasks, State         the rows of tables.sql and what the code reads and writes: the tables, the
--                        signals, the lease, two clocks; actions with exceptions
--   Rules                app/core/tasks/scheduler_rules.py and result_validation.py
--   Signals              app/core/tasks/runtime_signals.py and worker_lease.py
--   Config               app/core/tasks/configuration.py
--   AutoEnable           app/core/tasks/auto_enable.py and auto_enable_rules.py
--   Engine               app/tasks_engine.py: Queue up to the start of a task, Outcome from there on
--   Runner, Worker       app/core/tasks/execution.py, and `_task_worker` of app/tasks_engine.py
--   Scheduler, Runtime   app/core/tasks/scheduler.py and runtime.py
--   Media                app/core/media_jobs.py (Access), app/tasks/media_jobs_worker.py (Refresh and
--                        Enforcer), and the rows of `media_jobs` (Table)
--   Sequences            app/core/tasks/sequence_queue.py and sequences.py
--   Policies             modules of app/core: stream_policy_scope.py, stream_policy_utils.py and
--                        stream_violation_recheck.py (Scope), policy_transition_grace.py (Grace),
--                        stream_session_identity.py (Identity, Endpoint), stream_media_transition.py
--                        (Endpoint, Keys), stream_sync_dedupe.py (Sync), stream_household_dedupe.py
--                        (Household), stream_ip_transition_grace.py (Transition)
--   Enforcement          app/tasks/stream_enforcer.py: the rules on servers (Rules) and on users
--                        (Users), `_evaluate_policy` (Evaluate), `run` (Run, Enforce); of app/core
--                        stream_enforcement_store.py (Store), stream_enforcer_boost.py (Boosting)
--                        and stream_enforcer_repository.py (Load)
--   Subscriptions        app/tasks/update_user_status.py (Status), disable_expired_users.py (Expiry),
--                        expired_subscription_manager.py (Manager), and app/api/subscriptions.py
--                        (Tables, Update)
--   Communications       app/core/communication_template_selection.py and, of
--                        app/communications_engine.py, the choice of templates (Templates) and
--                        `schedule_template_notification` (Queue)
--   Referrals            app/tasks/process_referral_rewards.py (Rewards) and referral_cleanup.py (Cleanup)
--   Jellyfin             app/tasks/apply_jellyfin_access_updates.py
--   Cooldown             app/core/server_cooldown.py
--   Backups              app/core/backup_retention.py
-- A definition has the name of the Python function without a leading underscore; `f_row` is the row
-- that the UPDATE of `f` writes. Of the other files, WellFormed, Admission, Selection, Switch,
-- Retries, Once, Ticks, Skew, Recovery and Finishing are about tasks, Dedupe is about media jobs,
-- Ownership (with threads whose start may fail) and Waiting are about sequences, Deferral and Targets about the rules on streams, and the
-- other children of Enforcement about the enforcer, and those of Subscriptions about the users. The
-- other children of Communications, Referrals and Jellyfin prove what their parents do.
-- Samples and Examples hold test data and runs.
--
-- Choices of the model. A method is an action on `World`: it returns or raises, and what it has
-- written before it raises stays written. Each request to SQLite or for a new thread takes one answer
-- from `faults`, so that a theorem for all worlds covers every pattern of refusals, and one with
-- `w.faults ≡ []` speaks of runs without any. The statements on `media_jobs` do not fail in the model.
-- A time is a number of seconds, and the texts of dates are not modelled. `utc` is SQLite's clock and
-- `local` is `datetime.now()`. A status is one of the five that the code writes, or `unset` for NULL
-- and blank. `enabled` holds 0 or 1. A key that is missing, a row that is missing and a NULL are
-- `none`, and each function says what the code does there. Logging, debug flags and sleeps between
-- rounds are left out.
--
-- Choices for the enforcer. A session is a record of what is read of its row, with texts stripped and
-- in lower case, and of its JSON the identifiers and the height of the video. A rule is a record of
-- what is read of its JSON, and its limits are natural numbers. A key that the code prints into a text
-- (of a user, an actor, a grace) is a record or a constructor. An evaluation reads one clock, and in a
-- run time passes in the waits of the code only; the rows of the sessions are a function of the time.
-- The statements on its tables do not fail in the model.
--
-- Choices for the status of users. A day is a number, and the text of an expiry is told by how it
-- parses. Each statement of the task names one user, so that a run is a step on each row; the delays
-- are natural numbers, dates do not overflow, and no statement fails. For the access of expired users
-- the tables hold the columns that the query joins, and the day of an expiry is what SQLite's date()
-- reads. Backups are the files that the patterns find; none changes or goes while the function runs.
--
-- Choices for notifications, referrals and Jellyfin. A template holds what the selection reads, and days
-- are natural numbers. The number of days of a reward and of an archive are natural numbers too. The
-- ids of users and libraries on a Jellyfin server are numbers, in the order of their texts. A task that
-- is woken is only listed. Where the CHECK of a table refuses a row, the statement raises; no other
-- statement of these parts fails. In the manager of expired subscriptions a rule is told by whether it
-- is an object with the system's tag, and a text of a date by the day that `_parse_date` reads.
--
-- Parameters, for code that is not part of the repository or that is passed in: croniter, which
-- documents that its answers are later than their base; the callables of the tasks with their loader;
-- Python's `ipaddress` (`Addresses`), its texts of numbers, dates and JSON (`Texts`, `Formats`); the
-- replies of Jellyfin and the texts of exceptions (`Jellyfin`); the media servers, whose
-- calls succeed, refuse or raise, and the sessions at each time (`Outside`); the collector of
-- sessions; and what the rest of the program does while a sequence waits, with the sequences that are
-- queued meanwhile. Where it matters that time
-- does not go back, or passes during a sleep, a theorem says so.
--
-- Fuel. `task_worker` and `sequence_worker` take as fuel the number of their turns. The loop of the
-- media worker takes the number of rounds: a failed job waits for 30 seconds or more and a run claims
-- for 25 at most, so that a round takes a job for good and there are no more rounds than rows. A wait
-- for a task has fuel for one poll a second until its timeout, and two more; a wait without fuel ends
-- the sequence by a timeout. The messages before a
-- stop have fuel for one in each of their 60 seconds, and one more; they come every ten seconds.
-- The loop that moves an expiry by years has a round for each day up to its limit, and one more.
--
-- Not modelled: the clients of Plex and Jellyfin, the texts, snapshots and notifications of the
-- stream enforcer, the sending of scheduled notifications, the gifts and the routes of
-- app/api/subscriptions.py, the other tasks (synchronisation, Plex access, imports, the writing of
-- backups), the web routes with their templates and translations, authentication and
-- secrets, and the migrations of the database. The snapshot and the counts in the report of the
-- media worker are left out too.
pub mod Common
pub mod Tasks
pub mod State
pub mod Rules
pub mod Signals
pub mod Communications
pub mod Config
pub mod AutoEnable
pub mod Engine
pub mod Runner
pub mod Worker
pub mod Scheduler
pub mod Runtime
pub mod WellFormed
pub mod Samples
pub mod Admission
pub mod Selection
pub mod Switch
pub mod Referrals
pub mod Retries
pub mod Once
pub mod Ticks
pub mod Skew
pub mod Recovery
pub mod Jellyfin
pub mod Media
pub mod Cooldown
pub mod Dedupe
pub mod Sequences
pub mod Ownership
pub mod Waiting
pub mod Examples
pub mod Policies
pub mod Enforcement
pub mod Backups
pub mod Subscriptions
pub mod Deferral
pub mod Targets
pub mod Finishing
