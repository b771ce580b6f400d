-- ===== src/Relay/Router.antt =====
-- relay-server/relay/router.py: message dispatch. Each handler runs on the connection's context and
-- the shared world; what an `await` lets other connections do is the system's `interfere`. A log line
-- is not modelled.
pub mod Checks
pub mod Replies
pub mod Grounds
pub mod Pair
pub mod Resume
pub mod Traffic
pub mod Dispatch
pub mod Phases
