-- ===== src/Layer.antt =====
-- One layer of a bucket, the type `cache` of pkg/store/lru2.go.
pub mod Links
pub mod Cache
pub mod Ring
pub mod Memory
pub mod Adjust
pub mod Spec
pub mod Model
pub mod Reorder
pub mod Index
pub mod Push
pub mod Slots
pub mod Put
pub mod Get
pub mod Del
pub mod Walk
pub mod Reads
pub mod Victim
