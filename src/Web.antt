-- ===== src/Web.antt =====
-- The dashboard (web/).
pub mod Uri
pub mod Base64
pub mod Auth
pub mod Http
pub mod Server
pub mod Scripts
pub mod Badges
