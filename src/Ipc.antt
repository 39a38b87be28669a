-- ===== src/Ipc.antt =====
-- core/ipc_packet: the packets that the servers and their clients send one another.
pub mod Packet
pub mod Decoder
pub mod Reader
