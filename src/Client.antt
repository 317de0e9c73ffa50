-- ===== src/Client.antt =====
-- The crate waepic-client.
pub mod Error
pub mod World
pub mod Server
pub mod Chat
pub mod Update
pub mod Login
pub mod Prekeys
pub mod Pairing
pub mod PairCode
pub mod Front
pub mod Handlers
pub mod Updates
pub mod Signal
pub mod Media
pub mod Message
