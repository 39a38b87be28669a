-- ===== src/Forward.antt =====
-- jt1078/forward_server: the server that hands the packets of the cars on to its subscribers.
pub mod Subscriber
pub mod Publisher
pub mod Server
