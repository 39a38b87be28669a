-- ===== src/WebSocket.antt =====
-- new_web_server: the live streams of the cars for web sockets.
pub mod Topics
pub mod Server
pub mod Client
pub mod Path
