-- ===== src/Wire.antt =====
-- Bytes in memory and on the wire: byte order, buffers, the constants of openflow.h, the message
-- builders of com.cpp, and the wire format that the built messages have.
pub mod Order
pub mod Buffer
pub mod Ofp
pub mod Build
pub mod Rule
pub mod Format
pub mod Anim
pub mod Bytes
