-- ===== src/Registry.antt =====
-- The registration of a node in etcd, internal/registry/registry.go.
pub mod Register
pub mod Keys
