-- ===== src/Client/Handlers.antt =====
-- waepic-client/src/client/handlers.rs: the handlers of the nodes that are not messages.
pub mod Numbers
pub mod Presence
pub mod Notifications
pub mod Failures
pub mod Information
pub mod History
pub mod Dirty
