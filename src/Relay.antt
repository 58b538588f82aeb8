-- ===== src/Relay.antt =====
-- DAIM_stage1/stage0.cpp: two processes that copy the bytes between a switch and a controller.
pub mod Sockets
pub mod Copy
pub mod Stream
pub mod Main
pub mod Signals
