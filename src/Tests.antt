-- ===== src/Tests.antt =====
-- Runs of the model on concrete inputs, and the theorems applied to them.
mod Cron
mod NextRun
mod Store
mod Scripts
mod Web
mod Status
mod CronJobs
mod Client
mod Config
mod Instances
mod JobManager
mod Workers
mod Pages
mod Startup
mod Broker
