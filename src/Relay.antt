-- ===== src/Relay.antt =====
-- relay-server/relay: the relay's modules.
pub mod Errors
pub mod Exec
pub mod Config
pub mod Registry
pub mod Envelope
pub mod Redis
pub mod System
pub mod Pairing
pub mod RateLimit
pub mod Keeps
pub mod Router
pub mod Connection
pub mod Samples
pub mod ConfigTests
pub mod Tests
