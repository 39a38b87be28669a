-- ===== src/Tests.antt =====
-- Runs of the model at concrete inputs, and the theorems at inputs where their hypotheses hold.
mod Cars
mod Fields
mod Servers
mod Sending
mod Watching
mod Packets
mod Audio
mod Rtmp
mod Workers
mod Pipes
mod WebSockets
mod Relays
mod Paths
mod WebRequests
mod Queues
