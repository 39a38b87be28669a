-- ===== src/Web/Audio.antt =====
-- web_server/audio.
pub mod G711
pub mod Codec
