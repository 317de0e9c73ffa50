-- ===== src/Connection.antt =====
-- The crate waepic-connection.
pub mod Error
pub mod Ports
pub mod Noise
pub mod Backoff
pub mod State
pub mod Frame
pub mod Handshake
pub mod ReadLoop
pub mod Lifecycle
pub mod Runner
pub mod Handle
pub mod Waiters
