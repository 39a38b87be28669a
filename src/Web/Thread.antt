-- ===== src/Web/Thread.antt =====
-- web_server/thread.
pub mod Worker
