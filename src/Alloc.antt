-- ===== src/Alloc.antt =====
-- Allocation by compiled code: where a mutator keeps its allocation buffers, and the fast paths that
-- take memory from them.
pub mod Layout
pub mod Mutator
pub mod Expand
pub mod Projections
pub mod Publish
