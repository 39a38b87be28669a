-- ===== src/Web/Rtmp.antt =====
-- web_server/rtmp.
pub mod Stream
pub mod Client
pub mod Thread
