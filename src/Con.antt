-- ===== src/Con.antt =====
-- ANIv41/_con.cpp: the controller that serves one switch.
pub mod State
pub mod Reply
pub mod Features
pub mod PacketIn
pub mod Branches
pub mod Dispatch
pub mod Sending
pub mod Greeting
pub mod Ports
pub mod Hosts
pub mod Learning
pub mod Spared
pub mod Managed
pub mod Invariant
pub mod Forwarding
pub mod Packet
pub mod Ends
pub mod Lldp
pub mod Neighbours
pub mod Safety
pub mod Partly
pub mod Free
pub mod Messages
pub mod Cbench
pub mod Share
pub mod Sharing
pub mod Period
pub mod Race
pub mod Rounds
pub mod Threads
pub mod Orderly
pub mod Stuck
pub mod Reconnect
pub mod Serve
pub mod Start
pub mod Starting
pub mod Exit
