-- ===== src/Peer.antt =====
-- The selection of peers in internal/server/peer.go.
pub mod Picker
pub mod Clients
pub mod Watch
pub mod Join
