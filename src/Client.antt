-- ===== src/Client.antt =====
-- The workers (client) and the registry of handlers that they call (types/config/job_handler.go).
-- What runs in one goroutine is one function here, and a message to a channel is its result.
pub mod Handlers
pub mod Cron
pub mod Queue
pub mod Enqueued
pub mod Instances
pub mod JobManager
pub mod Timer
pub mod Exit
