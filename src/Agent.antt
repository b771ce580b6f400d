-- ===== src/Agent.antt =====
-- agent/common: the agent's modules.
pub mod Reply
pub mod SessionManager
pub mod Crypto
pub mod Config
pub mod TerminalQr
pub mod RelayClient
pub mod PtyBackend
pub mod SessionPump
pub mod Cli
pub mod Samples
pub mod ClientTests
pub mod PumpTests
pub mod SettingsTests
pub mod CliTests
pub mod Tests
