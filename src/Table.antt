-- ===== src/Table.antt =====
-- What the controller sees of an `object_list`: the objects in order, and where the cursor stands.
pub mod Ops
pub mod Loops
pub mod Represents
pub mod Refines
pub mod Failures
