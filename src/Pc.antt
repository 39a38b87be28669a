-- ===== src/Pc.antt =====
-- pc_server: the server that the PC clients connect to.
pub mod Session
pub mod Publisher
pub mod Server
