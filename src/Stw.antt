-- ===== src/Stw.antt =====
-- Stopping and starting the world: openjdk/mmtkVMCompanionThread.cpp, openjdk/mmtkVMOperation.cpp
-- and the stop, start and block upcalls of openjdk/mmtkUpcalls.cpp.
pub mod State
pub mod Monitor
pub mod Vm
pub mod Worker
pub mod Mutator
pub mod Schedule
pub mod Protocol
pub mod Safepoint
pub mod Spec
pub mod Progress
