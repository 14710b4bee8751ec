-- ===== src/Tests/Lir.antt =====
-- Stores and a load of the client compiler, with operands of each kind.
use mmtk_openjdk.Base.{
  some, ◌≡◌, List, ◌++◌, ℕ, refl, true, false, [], none, ◌==◌, if◌then◌else◌, arith,
}
use mmtk_openjdk.Barriers.Metadata.{load_byte}
use mmtk_openjdk.Barriers.Runtime.{
  CoreCall, Settings, object_barrier, satb_barrier, load_reference_barrier,
  object_reference_write_pre as runtime_write_pre,
  object_reference_write_post as runtime_write_post,
}
use mmtk_openjdk.X86.Cpu.{Address, Cpu, effective}
use mmtk_openjdk.X86.Cpu.{exec}
use mmtk_openjdk.Compiled.Lir.Visit.{visit, NoneOf, visit-covers}
use mmtk_openjdk.Compiled.Lir.{
  Stub, pre_barrier, emit_code, continuation, register, constant, address,
}
use mmtk_openjdk.Compiled.Lir.Emit.{
  object_reference_write_post, object_reference_write_pre, load_at_resolved,
}
use mmtk_openjdk.Compiled.Lir.Slow.{Calls}
use mmtk_openjdk.Compiled.Lir.Stores.{object_reference_write_post-Calls}
use mmtk_openjdk.Compiled.Lir.PreStores.{object_reference_write_pre-Calls}
use mmtk_openjdk.Compiled.Lir.Loads.{load_at_resolved-Calls}

-- A call leaves 99 in every register.
abbrev clobber : (ℕ → ℕ) → ℕ → ℕ
clobber registers a = 99

abbrev settings : Settings
settings = record { metadata_base = 0; barrier_fastpath = true }

-- Register 50 holds the object 1024, and 51 the new value; all objects are unlogged.
abbrev cpu : Cpu
cpu = record {
  registers = λ a. if a == 50 then 1024 else if a == 51 then 1072 else 0;
  bytes = λ a. if a == 512 then 1 else 255;
  words = λ a. 0;
  compared = (0, 0);
  saved = λ a. 0;
  live = λ a. 0;
  stack = [];
  parameters = λ a. 0;
  calls = [];
}

-- The field at 40 of the object.
abbrev field : Address
field = record { base = 50; index = none; scale = 1; disp = 40 }

object_reference_write_post-Calls_example :
    Calls clobber settings false 52 cpu
      (object_reference_write_post settings true (register 50) (address field) (constant 0))
      (runtime_write_post settings cpu.bytes object_barrier 1024 (effective field cpu.registers) 0)
object_reference_write_post-Calls_example =
    object_reference_write_post-Calls clobber settings false 52 cpu (register 50) (address field)
      (constant 0) (ground arith) (ground arith, tt) tt (ground arith)

object_reference_write_pre-Calls_example :
    Calls clobber settings false 52 cpu
      (object_reference_write_pre settings true false (register 50) (address field) (register 51))
      (runtime_write_pre settings cpu.bytes satb_barrier 1024 (effective field cpu.registers) 1072)
object_reference_write_pre-Calls_example =
    object_reference_write_pre-Calls clobber settings false 52 cpu (register 50) (address field)
      (register 51) (ground arith) (ground arith, tt) (ground arith) (ground arith) (ground arith)

load_at_resolved-Calls_example :
    Calls clobber settings true 52 cpu
      (load_at_resolved 512 true false false true 50)
      (load_reference_barrier satb_barrier (load_byte cpu.bytes 512) 1024)
load_at_resolved-Calls_example =
    load_at_resolved-Calls clobber settings 52 cpu 512 50 (ground arith) true false false true refl

-- The same machine, but for a register that the stub does not read.
abbrev other_cpu : Cpu
other_cpu = record cpu { registers = λ a. if a == 49 then 7 else cpu.registers a }

-- The stub for a field that is still to be patched, with its scratch register.
abbrev patched_stub : Stub
patched_stub = pre_barrier (some (52, field)) 50 52 51

visit-covers_example :
    let (to₁, c₁') = exec clobber (emit_code settings patched_stub) none cpu in
    let (to₂, c₂') = exec clobber (emit_code settings patched_stub) none other_cpu in
    (made : List CoreCall) × (to₁ ≡ some continuation)
    × (to₂ ≡ some continuation)
    × (c₁'.calls ≡ [] ++ made)
    × (c₂'.calls ≡ [] ++ made)
    × ((a : ℕ) → NoneOf a (visit patched_stub).temps → c₁'.registers a ≡ cpu.registers a)
unfolding visit
visit-covers_example =
    visit-covers clobber settings patched_stub cpu other_cpu
      ((ground arith, tt), ((ground arith, tt), tt)) (refl, (refl, (refl, tt)))
