-- ===== src/Compiled/Selected.antt =====
-- Compiled accesses and the access barrier of one barrier set.
use Prim.Native.String.{String}
use mmtk_openjdk.Barriers.Runtime.{Barrier}
use mmtk_openjdk.Barriers.Selected.{BarrierImpl}
use mmtk_openjdk.Compiled.Stores.{Compiler, c1, c2}

-- The part of the barrier set that the compiler asks.
abbrev pub part_of : Compiler → BarrierImpl → Barrier
part_of (c1 p) i = i.c1
part_of (c2 fastpath st) i = i.c2
