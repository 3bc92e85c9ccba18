-- ===== src/Service/App.antt =====
-- Applications and their requests: src/service/app_spec.cpp, app_instance.cpp, request.cpp and
-- batched_request.cpp.
pub mod Spec
pub mod Instance
pub mod Report
pub mod Batch
pub mod Output
