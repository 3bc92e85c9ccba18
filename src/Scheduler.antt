-- ===== src/Scheduler.antt =====
-- The spatial-sharing scheduler: src/scheduler/scheduler_base.cpp and scheduler_incremental.cpp.
pub mod State
pub mod Latency
pub mod MaxBatch
pub mod Nodes
pub mod Adjust
pub mod Memory
pub mod BestFit
pub mod Allocate
pub mod Utils
pub mod Estimate
pub mod Choose
pub mod TimeShare
pub mod Residue
pub mod Readjust
pub mod Output
pub mod Incremental
pub mod Session
pub mod Network
pub mod Profile
pub mod Devices
