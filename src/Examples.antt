-- ===== src/Examples.antt =====
-- The theorems at concrete inputs: one small GPU cluster, and one small service.
pub mod Cluster
mod Placing
mod Charging
mod Profiling
mod Serving
mod Running
mod Planning
mod Operating
