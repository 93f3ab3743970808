-- ===== src/Gateway.antt =====
-- crates/gateway/src/tcp: the TCP service in front of the use cases.
pub mod AuthGate
pub mod Context
pub mod Convert
pub mod Handlers
pub mod Admission
pub mod ReadLoop
pub mod Translator
pub mod Connections
pub mod RateLimit
pub mod Lifecycle
pub mod Http
