-- ===== src/Store.antt =====
-- The job stores over PostgreSQL (internal/store/postgres): a table is a list of rows, and each
-- statement of the source is a function of the table, with the meaning that SQL gives it.
pub mod Sql
pub mod Page
pub mod Counts
pub mod Enqueued
pub mod CronJobs
pub mod Users
