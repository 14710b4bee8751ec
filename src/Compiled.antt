-- ===== src/Compiled.antt =====
-- The barriers of the two compilers, as what the code that they generate computes:
-- openjdk/mmtkBarrierSetC1.hpp, openjdk/mmtkBarrierSetC2.hpp, openjdk/mmtkBarrierSetC2.cpp and the
-- compiler parts of openjdk/barriers/.
pub mod Bits
pub mod C1
pub mod C2
mod Leaf
pub mod Calls
pub mod Lir
pub mod Stores
pub mod Selected
pub mod Accesses
pub mod Loads
pub mod Snapshot
pub mod Remembered
