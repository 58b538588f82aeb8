-- ===== src/Linked.antt =====
-- ANIv41/linked.cpp and linked.h: the doubly linked `object_list` over an explicit heap.
pub mod Heap
pub mod Ops
pub mod Chain
pub mod Add
pub mod Walk
pub mod Free
pub mod Fail
pub mod Splice
pub mod Unlink
pub mod Remove
