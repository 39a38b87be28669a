-- ===== src/Web/Http.antt =====
-- web_server/http: the requests over HTTP that start and stop the streams, and the server behind them.
pub mod Sessions
pub mod Server
pub mod Handlers
