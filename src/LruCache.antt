-- ===== src/LruCache.antt =====
-- The single-level cache of pkg/store/lru.go, which NewStore does not make.
pub mod Cache
pub mod Spec
mod Lists
mod Linked
pub mod Model
mod Evict
mod Parts
pub mod Writes
mod Reads
pub mod Clean
mod Wrap
pub mod Recount
pub mod Reachable
pub mod Methods
