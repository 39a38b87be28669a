-- ===== src/Jt1078.antt =====
-- jt1078/jt1078_server: the server that the cars send their video to.
pub mod Header
pub mod Scan
pub mod Decoder
pub mod CarSession
pub mod Server
