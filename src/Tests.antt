-- ===== src/Tests.antt =====
-- Tests on concrete inputs, and an instance of each theorem that has hypotheses.
mod Doubles
mod Noise
mod Frames
mod Runner
mod Stores
mod Uploads
mod Media
mod Pairing
mod Login
mod Caches
mod Updates
mod Confirm
mod Signal
mod History
mod Messages
