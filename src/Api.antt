-- ===== src/Api.antt =====
-- internal/api: the handlers of the HTTP API.
pub mod Queries
pub mod Handlers
pub mod Stream
pub mod Replay
pub mod Routes
pub mod Server
