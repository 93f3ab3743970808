-- ===== src/Infra.antt =====
-- crates/infrastructure/src: the implementations of the ports.
pub mod TokenStore
pub mod MemoryRepos
pub mod Config
pub mod Converters
pub mod Sea
