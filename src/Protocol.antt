-- ===== src/Protocol.antt =====
-- crates/protocol: the messages of the game, and the table from opcodes to handlers.
pub mod Error
pub mod Opcodes
pub mod Generated
pub mod Messages
pub mod Router
