-- ===== src/Compiled/Lir.antt =====
-- The code that the client compiler's barriers emit in its low-level form: the operands, the
-- instructions that openjdk/barriers/ uses, what they do, and the stubs that the code branches to
-- (openjdk/mmtkBarrierSetC1.hpp, openjdk/mmtkBarrierSetC1.cpp). The registers of this form are those of
-- the processor model, without an upper bound: OpenJDK's register allocation is left out.
pub mod Emit
pub mod Perform
pub mod Operands
pub mod Stubs
pub mod Slow
pub mod Bit
pub mod Stores
pub mod Slots
pub mod PreStores
pub mod Loads
pub mod Visit
use mmtk_openjdk.Base.{
  ℕ, ◌%◌, ◌/◌, ◌^◌, List, [], ◌∷◌, ◌++◌, Bool, Option, none, some, ◌==◌, if◌then◌else◌, add64,
}
use mmtk_openjdk.Barriers.Metadata.{load_byte}
use mmtk_openjdk.Barriers.Runtime.{Barrier, object_barrier, satb_barrier, Settings}
use mmtk_openjdk.Compiled.Bits.{sign_extended}
use mmtk_openjdk.X86.Cpu.{Address, effective, Instruction, jmp, Cpu, set, exec}
use mmtk_openjdk.X86.Object.{
  generate_c1_post_write_barrier_stub, generate_c1_post_write_barrier_runtime_stub,
}
use mmtk_openjdk.X86.Satb.{
  generate_c1_pre_write_barrier_stub, generate_c1_pre_write_barrier_runtime_stub,
  generate_c1_ref_load_barrier_runtime_stub, generate_c1_ref_load_barrier_stub_call,
}

-- `LIR_Opr`
pub data Operand : Type 0 where
  register constant : ℕ → Operand
  address : Address → Operand

-- `MMTkC1PostBarrierStub`, `MMTkC1PreBarrierStub` and `MMTkC1ReferenceLoadBarrierStub`; `patched` is the
-- scratch register and the address where the slot needs patching.
pub data Stub : Type 0 where
  post_barrier : (src slot new_val : ℕ) → Stub
  pre_barrier : (patched : Option (ℕ × Address)) → (src slot new_val : ℕ) → Stub
  ref_load_barrier : (val : ℕ) → Stub

pub data Lir : Type 0 where
  move : Operand → (dst : ℕ) → Lir
  leal : Address → (dst : ℕ) → Lir
  move_byte : (base : ℕ) → (offset : Option ℕ) → (dst : ℕ) → Lir  -- `T_BYTE` to `T_INT`
  unsigned_shift_right : (reg count : ℕ) → Lir  -- of a pointer register
  unsigned_shift_right_int : (reg count : ℕ) → Lir
  unsigned_shift_right_by : (reg count_reg : ℕ) → Lir  -- of `T_INT`
  logical_and : (reg bits : ℕ) → Lir  -- with 2 ^ bits - 1
  cmp : (reg value : ℕ) → Lir
  branch_equal jump : Stub → Lir
  branch_destination : (label : ℕ) → Lir
  referent_check : (label : ℕ) → Lir  -- the code of `generate_referent_check`

-- `slow->continuation()`, and `Lcont_anonymous->label()`
abbrev pub continuation : ℕ
continuation = 1

abbrev pub cont_anonymous : ℕ
cont_anonymous = 2

-- The three code blobs of `MMTkBarrierSetC1`.
pub record RuntimeStubs : Type 0 where
  pub pre_barrier_c1_runtime_code_blob : List Instruction
  pub post_barrier_c1_runtime_code_blob : List Instruction
  pub ref_load_barrier_c1_runtime_code_blob : List Instruction

-- The stubs of the classes that the barrier gives the assembler.
unfoldable pub generate_c1_runtime_stubs : Barrier → Settings → RuntimeStubs
generate_c1_runtime_stubs b s = record {
  pre_barrier_c1_runtime_code_blob = elim b [
    | satb_barrier ↦ generate_c1_pre_write_barrier_runtime_stub s
    | _ ↦ []
  ];
  post_barrier_c1_runtime_code_blob = elim b [
    | object_barrier ↦ generate_c1_post_write_barrier_runtime_stub s
    | _ ↦ []
  ];
  ref_load_barrier_c1_runtime_code_blob = generate_c1_ref_load_barrier_runtime_stub;
}

-- `emit_code`, with the runtime stub in place of its call. A post-barrier stub comes from the object
-- barrier alone, and the other two from the SATB barrier.
unfoldable pub emit_code : Settings → Stub → List Instruction
unfolding generate_c1_runtime_stubs
emit_code s (post_barrier src slot new_val) =
    generate_c1_post_write_barrier_stub src slot new_val
    ++ (generate_c1_runtime_stubs object_barrier s).post_barrier_c1_runtime_code_blob
    ++ jmp continuation ∷ []
emit_code s (pre_barrier patched src slot new_val) =
    generate_c1_pre_write_barrier_stub patched src slot new_val
    ++ (generate_c1_runtime_stubs satb_barrier s).pre_barrier_c1_runtime_code_blob
    ++ jmp continuation ∷ []
emit_code s (ref_load_barrier val) =
    generate_c1_ref_load_barrier_stub_call
      (generate_c1_runtime_stubs satb_barrier s).ref_load_barrier_c1_runtime_code_blob val
    ++ jmp continuation ∷ []

abbrev pub value_of : Operand → (ℕ → ℕ) → ℕ
value_of (register r) registers = registers r
value_of (constant v) registers = v
value_of (address a) registers = effective a registers

-- What `move` puts into the register: it loads from an address.
abbrev moved : Operand → Cpu → ℕ
moved (register r) c = c.registers r
moved (constant v) c = v
moved (address a) c = c.words (effective a c.registers)

abbrev byte_address : (base : ℕ) → (offset : Option ℕ) → Cpu → ℕ
byte_address base none c = c.registers base
byte_address base (some offset) c = add64 (c.registers base) (c.registers offset)

unfoldable pub lir_step : Lir → Cpu → Cpu
lir_step (move o d) c = set d (moved o c) c
lir_step (leal a d) c = set d (effective a c.registers) c
lir_step (move_byte base offset d) c =
    set d (sign_extended (load_byte c.bytes (byte_address base offset c))) c
lir_step (unsigned_shift_right r k) c = set r (c.registers r / 2 ^ k) c
lir_step (unsigned_shift_right_int r k) c = set r (c.registers r % 2 ^ 32 / 2 ^ k) c
lir_step (unsigned_shift_right_by r k) c =
    set r (c.registers r % 2 ^ 32 / 2 ^ (c.registers k % 32)) c
lir_step (logical_and r bits) c = set r (c.registers r % 2 ^ bits) c
lir_step (cmp r v) c = record c { compared = (c.registers r, v) }
lir_step _ c = c

-- `clobber` is what a C call leaves in the registers, and `is_referent` whether the code of the
-- referent check goes on.
module _ (clobber : (ℕ → ℕ) → ℕ → ℕ) (s : Settings) (is_referent : Bool) where
  unfoldable pub run_stub : Bool → Stub → Cpu → Option ℕ × Cpu
  run_stub taken st c = if taken then exec clobber (emit_code s st) none c else (none, c)

  -- The code, from its start or on the way to a label: where it ends, with the label that it leaves
  -- for, if any.
  unfoldable pub run : List Lir → Option ℕ → Cpu → Option ℕ × Cpu
  unfolding run_stub
  run [] to c = (to, c)
  run (branch_destination l ∷ rest) (some k) c = run rest (if l == k then none else some k) c
  run (i ∷ rest) (some k) c = run rest (some k) c
  run (branch_equal st ∷ rest) none c =
      let (to, c') = run_stub (c.compared.0 == c.compared.1) st c in run rest to c'
  run (jump st ∷ rest) none c = let (to, c') = run_stub Bool.true st c in run rest to c'
  run (referent_check l ∷ rest) none c = run rest (if is_referent then none else some l) c
  run (i ∷ rest) none c = run rest none (lir_step i c)
