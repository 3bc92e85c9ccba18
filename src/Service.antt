-- ===== src/Service.antt =====
-- The service of src/service: load balancing, requests and applications, the table of proxies.
pub mod Tuning
pub mod Dispatch
pub mod Loading
pub mod Routing
pub mod Dropping
pub mod Rates
pub mod Epoch
pub mod Balancer
pub mod App
pub mod Control
