-- ===== src/Examples.antt =====
-- The theorems of the library at concrete inputs.
mod Messages
mod Lists
mod Inputs
mod Controller
mod Neighbours
mod Ani1
mod Ani21
mod Serving
mod Threads
mod Relay
