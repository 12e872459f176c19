-- ===== src/Server.antt =====
-- The server of internal/server/server.go and internal/server/group.go.
pub mod Handlers
pub mod Route
pub mod Requests
pub mod Safe
pub mod Read
pub mod Owner
pub mod Start
