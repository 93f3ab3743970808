-- ===== src/Net.antt =====
-- crates/net-kit: frames, the connection's queues, and the tasks that read and write them.
pub mod Error
pub mod Stream
pub mod Codec
pub mod Backpressure
