-- ===== src/Node.antt =====
-- natforge-node: the data plane.
pub mod Checked
pub mod Text
pub mod Sni
pub mod Http
pub mod State
pub mod Agent
pub mod Driver
pub mod Serve
pub mod Tls
pub mod Flows
