-- ===== src/Lib.antt =====
-- The MMTk binding for OpenJDK, the C++ side under openjdk/: how the VM's threads stop and start for
-- a GC, how barriers and roots reach mmtk-core, and what compiled code does in their place.
--
-- Parts and files. The threads share one monitor and one count:
-- - Stw: `MMTkVMCompanionThread` (openjdk/mmtkVMCompanionThread.cpp), `VM_MMTkSTWOperation`
--   (openjdk/mmtkVMOperation.cpp) and the upcalls `mmtk_stop_all_mutators`, `mmtk_resume_mutators`
--   and `mmtk_block_for_gc` (openjdk/mmtkUpcalls.cpp). Stw/State holds the shared state `World`;
--   Stw/Monitor `request` and the notifications; Stw/Vm the companion thread (`companion_step`) and the
--   VM thread (`vm_step`); Stw/Worker the GC worker (`worker_step`); Stw/Mutator the mutators
--   (`mutator_step`); Stw/Schedule puts them together: a schedule is a list of actors, and `run` is its
--   run. Stw/Protocol, Stw/Safepoint and Stw/Progress hold invariants, safety and progress.
-- - References: `mmtk_enqueue_references` (openjdk/mmtkUpcalls.cpp).
-- - Slots, Roots: the tags on slots and `MMTkRootsClosure` (openjdk/mmtkRootsClosure.hpp), against the
--   reader in mmtk/src/slots.rs.
-- - Barriers: `MMTkBarrierSetRuntime`, its implementations in openjdk/barriers/, and the access barrier
--   of openjdk/mmtkBarrierSet.hpp. Barriers/Metadata reads the unlog bit, Barriers/Runtime holds the
--   barriers, Barriers/Access the heap accesses round them.
-- - Compiled: the barriers of the two compilers as what their code computes (openjdk/barriers/,
--   openjdk/mmtkBarrierSetC1.hpp, openjdk/mmtkBarrierSetC2.hpp and .cpp); Compiled/Stores the accesses round them.
-- - X86: the emitters of openjdk/mmtkBarrierSetAssembler_x86.cpp and openjdk/barriers/ as lists of instructions, which
--   X86/Cpu runs: X86/Object and X86/Satb the barriers and their stubs, X86/Eden `eden_allocate`.
-- - Alloc: the layout of a mutator (openjdk/mmtkMutator.hpp), `alloc` (openjdk/mmtkMutator.cpp) and
--   `expand_allocate` (openjdk/mmtkBarrierSetC2.cpp).
-- - Finalizer: the finalizer thread (openjdk/mmtkFinalizerThread.cpp). Options: the options that
--   `MMTkHeap::initialize` sets (openjdk/mmtkHeap.cpp).
-- - CodeCache: the roots in nmethods, registered by `MMTkHeap` (openjdk/mmtkHeap.cpp), kept in mmtk/src/api.rs and
--   scanned by mmtk/src/gc_work.rs. Roots/Upcalls: which roots the upcalls of a GC scan (openjdk/mmtkUpcalls.cpp).
-- - Heap: Heap/Startup `ThirdPartyHeapArguments::initialize` and `MMTkHeap::initialize`, Heap/Enable
--   `enable_collection`, Heap/Services what the heap answers to the VM (openjdk/mmtkHeap.cpp).
-- - Threads: spawned collector threads, and mutators from their binding to their end (openjdk/mmtkUpcalls.cpp,
--   openjdk/mmtkMutator.cpp, openjdk/mmtkBarrierSet.cpp). Stw/Spec is what Stw promises to mmtk-core.
-- - Compiled/Lir holds the code that the client compiler emits (Compiled/Lir/Emit), run on the processor of X86/Cpu
--   together with the stubs that it branches to (openjdk/mmtkBarrierSetC1.cpp).
-- - Barriers/Selected, Compiled/Selected: the barrier set as one barrier's parts (openjdk/mmtkBarrierSet.cpp).
--   X86/Stores: `store_at`. Alloc/Publish: the order of the effects of an allocation. Heap/Queries: what the VM asks of
--   the heap. Slots/ScanObject: `mmtk_scan_object` (openjdk/mmtkUpcalls.cpp).
-- - Upcalls: the table `mmtk_upcalls` (openjdk/mmtkUpcalls.cpp, openjdk/mmtk.h) and its mirror in mmtk/src/lib.rs.
--   Compiled/Leaf: the leaf calls of the server compiler as nodes of its graph (openjdk/mmtkBarrierSetC2.hpp).
-- - Downcalls: the functions of openjdk/mmtk.h, against those of mmtk/src/api.rs. Objects: sizes of objects and the check
--   of class layouts (openjdk/mmtkUpcalls.cpp, mmtk/src/abi.rs).
--   Compiled/Accesses: accesses by the VM, by compiled code and by stubs that copy arrays (X86/Copies) side by side;
--   Compiled/Snapshot and Compiled/Remembered have what the barriers are for, with all of these, and Compiled/Loads
--   the loads among them.
-- - Base: names, tests, lists and words that all parts share. Tests: concrete inputs.
--
-- Modelling. Numbers are the native naturals, words have 64 bits and `size_t` wraps round. A step of a
-- thread is one critical section of a monitor, or one access outside of it; `wait` ends a step, and
-- spurious wake-ups are steps of the schedule. `VMThread::execute` and safepoints are OpenJDK's: the
-- operation runs once each mutator is at the safepoint, and `execute` returns after it is completed.
-- mmtk-core is a parameter: the record `Core` of Barriers/Access, with the contracts `SatbCore` and
-- `ObjectCore`; the buffers of the collector are a function, as is OpenJDK's raw array copy; a copied
-- slot has 8 bytes, as without compressed oops. There is no fuel: all loops recurse on a list, or are steps of the schedule.
--
-- Not modelled: the Rust library itself but for its tables of code roots, its reader of slots and its view of
-- the table of upcalls; the memory model of the processor; what the upcalls ask of CodeCache, nmethods and JVMTI;
-- logging; queries that only forward; and the graphs that the compilers build beyond what they compute, the order
-- of an allocation's effects, the nodes of leaf calls and the rewiring of projections.
pub mod Base
pub mod Stw
pub mod References
pub mod Slots
pub mod CodeCache
pub mod Roots
pub mod Barriers
pub mod Alloc
pub mod X86
pub mod Compiled
pub mod Finalizer
pub mod Options
pub mod Heap
pub mod Threads
pub mod Upcalls
pub mod Downcalls
pub mod Objects
pub mod Tests
