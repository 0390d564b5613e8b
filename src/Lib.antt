-- ===== src/Lib.antt =====
-- hound-bot: a Slack bot for tasks, reminders and meetings.
--
-- The program. HTTP routes (app/api) check Slack's signature and put work into the table of inbound
-- jobs or answer at once; a worker (app/worker.py) polls that table, runs one handler for each type
-- of job, and marks each job done or failed; a scheduler (app/scheduler.py) claims the reminders
-- that are due and sends them. The services (app/services) hold the rules of tasks, meetings and
-- the weekly digest; the agent (app/agent) lets a language model call a whitelist of them; the
-- repositories (app/repositories) read and write the tables, most of them for one team only;
-- secrets are encrypted with versioned keys (app/core/security.py), and meeting slots are found in
-- the participants' calendars (app/calendar).
--
-- How it is modelled. An action takes the world and returns a result and the world after it
-- (Exec/Monad): the tables as the session sees them (`db`), as they are committed (`saved`), the
-- effects that took place (`sent`, each with what was committed then; the insert of a calendar
-- event is in it also where its answer is an exception), and the number of calls made to the
-- outside. An exception is a value of `Error`, and the world is kept when one is raised. The
-- outside world (`Outside`: clock, random ids, time zones, row locks of other transactions, Fernet,
-- the calendars' busy blocks, Slack, httpx, Pydantic) is a parameter, whose answer may depend on
-- the number of calls made before. A `datetime` is a number of microseconds (Time), and arithmetic
-- that leaves the years 1 to 9999 is OverflowError.
--
-- The files.
--   Base, Time, Exec, Text: shared helpers, Python's datetime, actions, int() and text patterns.
--   Models: app/models, one record for each table's row.
--   Repositories: app/repositories, one file for each repository; a method of a tenant-scoped one
--     takes the team's id, and `Tenant.open_repository` is the constructor's check.
--   Core/Security: app/core/security.py; HMAC-SHA256 is a parameter.
--   Calendar/Intersection: app/calendar/intersection.py.
--   Services/Tasks, Services/Meetings, Services/Analytics: app/services.
--   Agent/Tools, Agent/Loop: app/agent.
--   Scheduler: app/scheduler.py.  Worker/Handlers, Worker/Batch, Worker/Poll: app/worker.py.
--   Services/Parsers: app/services/task_command_parser.py and meet_command_parser.py.
--   Api/Http, Api/Events, Api/Interactions, Api/Commands, Api/Internal: app/api, and the health
--     endpoint of app/main.py. The replies that run after a response are part of the outcome.
--   Json, HttpClient, Exec/Responses: decoded JSON, httpx's requests and responses, and what Python
--     raises where they are read. Text/UrlEncode: urllib's urlencode;
--     its Decoding and Parsed read a query as the receiver does.
--   Calendar/Google: app/calendar/google_calendar.py. Services/SlackOauth: app/services/slack_oauth.py.
--   Api/Google, Api/Install: app/api/routes_google.py and routes_install.py.
--   Ui/Blocks: app/ui/blocks.py.
--   Agent/Schema, Agent/Whitelist: the argument models and `TOOLS` of app/agent/tools.py.
--   The children of these modules hold the proofs; Tests runs the program at a small world.
--
-- Fuel. The search for a slot is a loop that the model runs on `turns` many turns: the width of the
-- window, with the length of a negative duration, in steps of 15 minutes, and one more; a turn
-- after those would begin past the last candidate that can end in the window. `run_worker_loop`
-- takes the turns of an endless loop as a list, each of which completes or is cancelled. The scan
-- for mentions has the text's length as its fuel, as each step takes a character at least.
--
-- Not modelled: the HTTP requests of the Slack client of app/core/slack_client.py (an effect stands
-- for each), the page of a finished installation, logging, the engine and the sessions of
-- SQLAlchemy beyond commit and close, configuration from the environment, migrations and scripts.
-- The services and the worker see the calendar through the protocol of app/calendar/provider.py
-- (busy blocks as an answer, events as effects); Calendar/Google models what stands behind it. The
-- database checks the foreign key to the workspaces of a task and of a job, and the 32 bits of a
-- task's interval (Repositories/Constraints), and may refuse any statement of the worker's own
-- session (Worker/Batch); elsewhere a statement succeeds, so no theorem says what a lost connection
-- does in a request or in the scheduler. Rows with the same primary key are not excluded by the
-- model; a theorem that needs a fresh id says so. White space and digits outside ASCII are not read
-- by `int`.
pub mod Base
pub mod Time
pub mod Models
pub mod Json
pub mod HttpClient
pub mod Exec
pub mod Repositories
pub mod Text
pub mod Core
pub mod Calendar
pub mod Services
pub mod Agent
pub mod Scheduler
pub mod Worker
pub mod Api
pub mod Ui
pub mod Tests
