-- ===== src/Heap.antt =====
-- `MMTkHeap` (openjdk/mmtkHeap.cpp): how the heap comes up, and what follows before collections are
-- enabled.
pub mod Startup
pub mod Enable
pub mod Services
pub mod Queries
