-- ===== src/Client/Pairing.antt =====
-- waepic-client/src/client/pair.rs: its nodes, `handle_pair_success`, and `run_qr_pairing`.
pub mod Nodes
pub mod Success
pub mod Qr
pub mod Request
