-- ===== src/Session.antt =====
-- The crate waepic-session.
pub mod Sql
pub mod Schema
pub mod Signal
pub mod AppSync
pub mod Protocol
pub mod Sent
pub mod Device
pub mod Chats
pub mod Memory
pub mod Caches
