-- ===== src/SingleFlight.antt =====
-- The merging of calls in internal/singleflight/singleflight.go.
pub mod Step
pub mod Invariant
pub mod Stored
pub mod Ran
pub mod Reachable
pub mod Alone
