-- ===== src/Examples.antt =====
-- The theorems at concrete inputs.
mod Wire
mod Routing
mod Agent
mod Serve
mod Control
mod Flows
mod Reserve
mod Requests
mod Devices
mod Failover
mod Host
