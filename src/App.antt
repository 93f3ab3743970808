-- ===== src/App.antt =====
-- crates/application/src: the use cases, and the room's task with its event sinks.
pub mod Error
pub mod Sink
pub mod Actor
pub mod Rooms
pub mod Ports
pub mod Login
pub mod Register
pub mod Progression
