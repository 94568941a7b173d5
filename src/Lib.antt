-- ===== src/Lib.antt =====
-- GoFire, a job server: jobs are put into a PostgreSQL table or scheduled by cron expressions,
-- instances fetch, lock and run them, and a web dashboard shows them.
--
-- Files and what they model:
-- - Base and its children: lists, tests, results and sorting, shared by all parts.
-- - Text: the texts of Go's package strings and of JavaScript, as lists of code points.
-- - Status (internal/state/statuses.go): the job statuses and the table of transitions. A Go status
--   is a string; `other s` is a text that is none of the six constants.
-- - Store (internal/store/postgres): a table is a list of rows and the next id of its sequence. Each
--   method of PostgresEnqueuedJobStore is a function of the table, with the same name in snake case;
--   the failure of the database and its clock `now` are arguments. Sql has UPDATE and the cursor,
--   Page the arithmetic of pages, Counts the counts by status, Enqueued the table and its
--   statements, Enqueued/Bulk the insertion of a batch. Enqueued/Ops puts all calls into one type,
--   so that a history of calls is a list; Enqueued/Due has what FetchDueJobs returns, and Paging how its
--   pages add up.
-- - Cron (pgk/parser/cron_expression_parser.go): Int has Go's 64-bit int and Atoi, Field has
--   parsePart, Parse has ParseCron, Search has contains, Calendar and Clock have what the code uses
--   of package time, NextRun has CalculateNextRun.
-- - Web/Scripts (web/static/assets/js/scripts.js): the dashboard's own script, with its title and the
--   arithmetic of its pager; Pager has the address that the pager loads, Confirm the dialogs, Messages
--   the cookies, and Charts the script of the page with the charts (web/templates/charts.html), up to
--   the tables that its numbers come from. Web/Uri has what the server and the script
--   use of URI encodings, over UTF-8.
-- - Store/CronJobs (internal/store/postgres/postgres_cron_job_store.go): the table of cron jobs and
--   its statements, in the same way; Ops, Upsert, Locking and Due have the proofs.
-- - Client/Handlers (types/config/job_handler.go): the registry of handlers. Client/Enqueued and
--   Client/Queue (client/enqueue_job_manager.go): a round of processDueJobs, handleJob, the result
--   processor, ExecuteJobManually, and the worker that moves the jobs of the message queue into the
--   table. A round is given the calls of the store that others make while it waits for the semaphore
--   (`Lap`). Enqueued/Retry has the loop MarkRetryFailedJobs, Enqueued/Held what a round holds at its end,
--   Enqueued/Waiting and Progress have rounds of the worker, one after the other, Enqueued/Start the start of the worker, and Enqueued/Lifecycle the
--   phases that a job goes through, as an abstract machine.
--   Client/Instances: the calls of several instances, interleaved, as a step relation.
--   Client/Cron (client/cron_job_manager.go): executeJob and its result processor; Client/Cron/Rounds
--   has processCronJobs, with fuel for one page more than the table has rows, which is enough.
--   Client/JobManager (client/job_manager.go): Enqueue in both modes, and the Schedule family;
--   Client/Timer has the timers of the same file, Client/Exit its shutdown.
-- - Lock (internal/lock/postgres_distributed_lock_manager.go): Acquire and Release, over the advisory
--   locks of the database's sessions. Broker (internal/message_broaker/rabbitmq.go): the connection, its
--   messages in and out.
-- - Store/Users (internal/store/postgres/postgres_user_store.go): the users of the dashboard; Setup
--   (jobmanager/run.go): the user that the configuration names. Setup/Migrations (internal/db/init.go):
--   the schema and the migrations under their lock. Setup/Registration (types/config/config.go,
--   jobmanager/run.go, gofire/server.go): the handlers of the configuration and their registration.
--   Setup/Start: New in the order of its steps.
-- - Web/Http, Web/Auth and Web/Server (web/route_handler.go, web/auth_middleware.go,
--   web/auth_cookie_validator.go, web/shared.go): requests and responses, the token of a login, and
--   the handlers behind their routes, each a function of the request and of the tables. Web/Base64 has
--   the encoding of the token. Server/Guard, Session, Changes, Actions and Paging have the proofs.
--   Web/Badges (web/template_renderer.go) has the classes and icons of the statuses.
-- - Config (types/config/config.go): NewGofireConfig and its options.
-- - Tests: runs of the model, and the theorems at concrete inputs.
--
-- How the parts meet: the managers (client/) ask the store for due jobs in the statuses queued and
-- retrying, lock each, run it and report it by MarkSuccess or MarkFailure; cron jobs get their next
-- run from CalculateNextRun.
--
-- Choices. A statement of SQL is atomic. FetchDueJobs is given the order in which the database reads the rows
-- that ORDER BY leaves equal, which may differ from query to query; in the lists of cron jobs such rows
-- keep the order of the table. A count and the rows of a page come from one state of the table. Numbers of rows, and the numbers of the script, are
-- below 2^53, where the quotient of two floats is rounded up exactly; integer columns do not
-- overflow. A negative page counts as page 0, which the code treats alike. JSON is a text that
-- Marshal returns, or its failure. Go's int wraps around at 2^64. The loops of the parser have 256
-- rounds of fuel, which is enough for bounds below 64; the loop of CalculateNextRun has its own bound
-- of 525600 rounds. A location is a fixed offset from UTC: changes of daylight saving time are not
-- modelled. A column without a time zone holds what the clock of the process showed that wrote it, and is
-- compared with what the clock of the database's session shows. Locations' clocks show dates of the year 1 or later.
--
-- json.Unmarshal and the handlers are parameters: a handler is known by what it does to its caller,
-- which is to return nil, to return an error, or to panic. What one goroutine does between two calls
-- of the store is one function; the calls themselves may come in any order.
--
-- HMAC-SHA256, bcrypt, the AMQP server, Chart.js, the JSON of messages and the files of the dashboard
-- are parameters as well: functions and records of functions, with what the code relies on as fields or
-- as hypotheses. A page number of an address is below 2^59 where it is multiplied by the size of the
-- page.
--
-- The session in which the pool runs a statement, the lateness of a timer and the time that a run takes
-- are arguments too: a theorem about them holds for all. No clock is set back, and no session of the
-- database ends while it is followed.
--
-- A dialog of the script that is open when the next one is asked for is dismissed, as SweetAlert2 does it.
--
-- Not modelled: the results of cron jobs that are stored while a round over the cron jobs waits, the start of
-- the goroutines, the sleep between two rounds, the count of the semaphore, the signals,
-- and the HTML templates: they are calls of libraries and of the operating system. The scripts chart.js,
-- chart.umd.min.js and sweetalert2@11.js are copies of Chart.js and SweetAlert2.
pub mod Base
pub mod Client
pub mod Config
pub mod Text
pub mod Status
pub mod Store
pub mod Cron
pub mod Lock
pub mod Broker
pub mod Setup
pub mod Web
mod Tests
