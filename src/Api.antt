-- ===== src/Api.antt =====
-- internal/api: the HTTP service.
pub mod Server
pub mod Handlers
pub mod Outcome
pub mod Clean
pub mod Posts
pub mod Statuses
pub mod Service
