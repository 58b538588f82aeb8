-- ===== src/Ani21.antt =====
-- ANIv21/_con.cpp: the second version of the controller, where it is not the code of ANIv41/_con.cpp.
pub mod Text
pub mod Actions
pub mod Dispatch
pub mod Reading
pub mod Sharing
pub mod Loop
pub mod Greets
pub mod Partly
pub mod Threads
pub mod Stale
pub mod Exit
