-- ===== src/Tests.antt =====
-- Concrete inputs for the theorems: one module for each part of the development.
mod Stw
mod References
mod Roots
mod Cores
mod X86
mod Alloc
mod Compiled
mod Lir
mod Finalizer
mod Options
mod CodeCache
mod RootUpcalls
mod Heap
mod Threads
mod Upcalls
mod Accesses
mod Objects
mod Downcalls
