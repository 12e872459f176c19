-- ===== src/ConHash.antt =====
-- The consistent hash ring of internal/consistenthash/con_hash.go.
pub mod Search
pub mod Map
pub mod Lookup
pub mod Dest
pub mod Points
pub mod Members
pub mod AddRemove
pub mod Owners
pub mod Rebalance
pub mod Election
pub mod Snapshot
pub mod Follower
