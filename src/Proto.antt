-- ===== src/Proto.antt =====
-- natforge-proto/src/lib.rs: the wire contract that node, agent and control plane share.
pub mod Route
pub mod Claims
pub mod Stream
pub mod Preamble
pub mod Datagram
pub mod Frame
