-- ===== src/Control.antt =====
-- The control plane, natforge-backend: what may be requested, and what a reservation turns into.
pub mod Policy
pub mod Names
pub mod Expand
pub mod Ports
pub mod Reserve
pub mod Tunnels
pub mod Site
pub mod Handlers
pub mod Devices
pub mod Failover
pub mod Register
