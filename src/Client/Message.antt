-- ===== src/Client/Message.antt =====
-- waepic-client/src/message: what the caller of a send gives.
pub mod Media
pub mod Input
