-- ===== src/Web.antt =====
-- web_server: the audio codecs, the RTMP streams and the threads that feed them.
pub mod Audio
pub mod Rtmp
pub mod Thread
pub mod Http
