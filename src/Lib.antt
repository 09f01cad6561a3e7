-- ===== src/Lib.antt =====
-- Command Center is an event-sourced hub for coding agents. Its services keep catalogues in memory,
-- change them only through their own methods, publish each change as an event on the bus, and fold
-- the persisted events back when the process starts. This library models the core services and
-- proves what each of them promises.
--
-- The parts and the files that model them. Paths are from the repository's root.
--   Base         Python's dict, list, str and int as far as the services use them, JSON values, and
--                the exceptions of src/prodeo/errors.py as the error side of Result.
--   Events       src/prodeo/events: the type names, the envelope (Event, item), and in Host what a
--                method takes from its surroundings: the clock, the ULID draws, the id counter of
--                _new_id, and the list of all events published so far.
--   Sessions     src/prodeo/sessions: State is state.py, State/Machine the reachability of states;
--                Model is model.py; Registry has the methods of SessionRegistry, and Registry/Fold
--                its read side (rebuild, apply_remote, _apply).
--   Mediation    src/prodeo/mediation: Service has the methods of MediationService (open is
--                open_interaction, answer is answer_interaction, _timeout is timeout), Service/Fold its
--                read side and the cancellation of orphans that ends rebuild.
--   Machines     src/prodeo/machines: Registry is registry.py with its fold, Enrollments is
--                enrollments.py.
--   Scheduler    src/prodeo/scheduler: Cron is cron.py, Service is service.py: create, trigger_now,
--                delete, _fire, one round of _run, _sleep_seconds and the fold.
--   Bus          src/prodeo/bus: matches, the queue of a subscriber, the fan-out. Where the publisher of
--                the code waits for a full queue, the result is none, or waits with what is left.
--   Persistence  src/prodeo/persistence: Store is sqlite.py as the rows of its table, and the paging
--                loop that every rebuild of the services runs over it, whose events the folds replay.
--   Presence     src/prodeo/presence: Tracker is tracker.py.
--   Notify       src/prodeo/notify: Service is the routing of service.py; the text of a notification and
--                what a channel raises are parameters.
--   Retention    src/prodeo/persistence/retention.py over the rows of the store: the rules, the archive by
--                month and the sweep of old sessions. An age is in microseconds, and the disk writes a
--                month's batch whole or not at all.
--   Adapters     src/prodeo/adapters: Model is interface.py and observations.py, Manager is manager.py:
--                control calls in Manager itself, discovery, watching and the lifecycle in Discovery,
--                reports in Observe, and in Interact the way of an answer back, through the closures
--                that mediation is given. A set is a list in the order of its iteration. A report that
--                sleeps because its session is not known yet comes back as a call of its own. `calls`
--                is the history of the calls that reached an adapter, with what each was given.
--   Apps         src/prodeo/apps: Supervisor has the commands of supervisor.py, Supervisor/Supervise what
--                the task of an app does from one wait to the next (a child's exit is a call of its
--                own) and start, and Environment the environment of a child, with config_to_env of
--                manifest.py, and the setup steps that are unmet. A process is its pid.
-- Each part has a module Tests with runs at concrete inputs.
--
-- How the code corresponds. A service is a record of its attributes; a method is a function from the
-- Host and the record to a result, a Host and a record (Outcome), with its guards and early returns in
-- the source's order. A body that raises returns the error and what it has changed until then. A method
-- runs to its end before the next call starts: the services are written for one event loop, and between
-- two awaits of a method the state is that of the code; other orders appear as sequences of calls
-- (the Call types and run), in which timers end at any moment as calls of their own.
-- An object that two dictionaries or callers share is written through its key: put under the id it is
-- found at, or modify. Lists and dicts keep their order.
--
-- What stands for what. A ULID is its number: its text has the same order. Times are microseconds as
-- natural numbers. A timeout is whole seconds. A payload field holds the model that the service dumps
-- there, since pydantic validates its own dump to the same model; a field of another kind is a
-- validation error. JSON numbers are naturals. Log lines are left out. A callback is a number, and
-- `delivered` is the history of the callbacks awaited. A set of small numbers is its ascending list.
-- A local time is a day number with hour, minute and microseconds: Python compares and adds to times
-- that share their tzinfo as wall clocks, and so does next_fire here: it takes and gives wall clocks, and
-- the two passes of an hour that a zone repeats are outside its theorems. Texts that are parsed are
-- ASCII. The cutoff of a retention rule is exact, where the source's float may be 1 ms off. SQLite's
-- primary key and ORDER BY id stand as rows kept in the order of their ids.
--
-- Bounds and fuel. The days loop of next_fire runs for the source's own limit of 366 * 4 days, which is
-- the fuel of days_loop. The paging loop has fuel, and one more round than there are rows is proved to be
-- enough; a deletion has at most as many chunks as ids, which is the fuel of delete_chunks. Every other
-- loop follows a list. The year 9999, where Python's dates end, is not reached. Numbers are unbounded, as in Python.
--
-- Parameters: the timezone's conversions (Zone), the launcher of agents (Launcher), SHA-256, the clock,
-- the ULID draws, what the disk refuses, the text of an exception and of a number, Python's json, and
-- what each call of an adapter, each spawn and each child gives. The only things asked of them are
-- named hypotheses: ULID draws do not repeat, for one theorem a zone is without shifts, and for another
-- Python's json reads back what it wrote.
--
-- Not modelled: the overlap of two calls inside an await of one method, such as two starts of an app
-- while the setup probe runs; the database engine under the SQL statements, HTTP and WebSocket routes,
-- subprocesses and installers, audio and speech, the adapters' readers of other programs' files, and the
-- dashboard.
pub mod Adapters
pub mod Apps
pub mod Base
pub mod Bus
pub mod Events
pub mod Machines
pub mod Mediation
pub mod Notify
pub mod Persistence
pub mod Presence
pub mod Retention
pub mod Scheduler
pub mod Sessions
