-- ===== src/Service/Control.antt =====
-- The control channel between the front end and a back end: src/service/backend_proxy_ctrl.cpp sends,
-- backend_control.cpp receives and executes. The channel is the list of the `int`s that are sent.
pub mod Message
pub mod Execute
pub mod Waiting
pub mod Channel
