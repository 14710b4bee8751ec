-- ===== src/Barriers.antt =====
-- The write and load barriers: openjdk/barriers/, openjdk/mmtkBarrierSet.cpp and its headers.
pub mod Metadata
pub mod Runtime
pub mod Selected
pub mod Access
pub mod Writes
pub mod Snapshot
pub mod Remembered
