-- ===== src/Cron.antt =====
-- The cron package (pgk/parser/cron_expression_parser.go).
pub mod Int
pub mod Field
pub mod Parse
pub mod Search
pub mod Calendar
pub mod Clock
pub mod NextRun
