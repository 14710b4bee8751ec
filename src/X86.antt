-- ===== src/X86.antt =====
-- The barriers and the allocation fast path that the x86 assembler emits:
-- openjdk/mmtkBarrierSetAssembler_x86.cpp and the assembler parts of openjdk/barriers/.
pub mod Cpu
pub mod Bits
pub mod Or
pub mod Elision
pub mod Object
pub mod Satb
pub mod Stores
pub mod Copies
pub mod Eden
