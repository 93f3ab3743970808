-- ===== src/Domain.antt =====
-- crates/domain: value objects and aggregates, with the rules that need no I/O.
pub mod Error
pub mod Room
pub mod Player
pub mod Value
pub mod Account
pub mod Session
