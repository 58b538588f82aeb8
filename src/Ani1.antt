-- ===== src/Ani1.antt =====
-- ANIv1/main.cpp: the first version of the controller, in one file.
pub mod Build
pub mod Handlers
pub mod Main
pub mod Sending
pub mod Greeting
pub mod Packet
pub mod Managed
pub mod Agrees
pub mod Loop
pub mod Serving
