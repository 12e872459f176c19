-- ===== src/Store.antt =====
-- The two-level bucketed store `lru2Store` of pkg/store/lru2.go.
pub mod Hash
pub mod Clock
pub mod Bucket
pub mod Ops
pub mod Model
pub mod Delete
pub mod Answer
pub mod Get
pub mod Displaced
pub mod Set
pub mod Mask
pub mod Invariant
pub mod Methods
pub mod RoundTrip
pub mod Create
pub mod Collect
pub mod CleanUp
pub mod Clear
pub mod Len
pub mod CleanStore
