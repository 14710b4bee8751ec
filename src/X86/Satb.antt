-- ===== src/X86/Satb.antt =====
-- The SATB barrier in assembly: `MMTkSATBBarrierSetAssembler` (openjdk/barriers/mmtkSATBBarrier.cpp),
-- and the stubs of the reference load barrier (openjdk/mmtkBarrierSetAssembler_x86.cpp).
pub mod Calls
use mmtk_openjdk.Base.{
  ℕ, Bool, true, false, ◌&&◌, ◌||◌, List, [], ◌∷◌, ◌++◌, Option, none, some, ◌==◌, if◌then◌else◌,
}
use mmtk_openjdk.Barriers.Runtime.{Settings}
use mmtk_openjdk.X86.Cpu.{
  rax, rcx, c_rarg0, c_rarg1, c_rarg2, rscratch1, rscratch2, Address,
  object_reference_write_slow_call, object_reference_write_pre_call,
  object_reference_array_copy_pre_call, load_reference_call, equal, not_equal, Function,
  Instruction, mov, mov32, xor, mov_imm, shr_imm, and_low, shr_cl, load_byte_zx, load_low_byte_at,
  lea, cmp_imm, jcc, bind, call, pusha, popa, push, pop, store_parameter, load_parameter,
  save_live_registers, restore_live_registers,
}
use mmtk_openjdk.X86.Elision.{BasicType, is_oop, can_remove_barrier}

abbrev done : ℕ
done = 0

-- What `load_at` emits behind the raw load: `on_reference` is a weak or phantom reference, and
-- `concurrent_marking_active` the address of the byte `CONCURRENT_MARKING_ACTIVE`.
unfoldable pub load_at_barrier :
    (concurrent_marking_active : ℕ)
    → BasicType
    → (on_reference : Bool) → (dst : ℕ) → List Instruction
load_at_barrier concurrent_marking_active type on_reference dst =
    if is_oop type && on_reference
    then mov_imm rscratch1 concurrent_marking_active
      ∷ xor rscratch2 rscratch2
      ∷ load_low_byte_at rscratch2 rscratch1
      ∷ cmp_imm rscratch2 1
      ∷ jcc not_equal done
      ∷ cmp_imm dst 0
      ∷ jcc equal done
      ∷ pusha
      ∷ mov c_rarg0 dst
      ∷ call load_reference_call
      ∷ popa
      ∷ bind done
      ∷ []
    else []

-- `tmp5`: whichever of the two registers the address does not use.
unfoldable pub choose_tmp : Address → (tmp1 tmp2 : ℕ) → ℕ
choose_tmp dst tmp1 tmp2 = if (tmp1 == dst.base) || is_index dst.index then tmp2 else tmp1
  where
    is_index : Option ℕ → Bool
    is_index none = false
    is_index (some i) = tmp1 == i

-- From `tmp5 = load-byte` to the mask of the bit.
unfoldable pub load_unlog_bit : Settings → (obj tmp5 : ℕ) → List Instruction
load_unlog_bit s obj tmp5 =
    mov rscratch1 obj
    ∷ shr_imm rscratch1 6
    ∷ mov_imm tmp5 s.metadata_base
    ∷ load_byte_zx tmp5 tmp5 rscratch1
    ∷ mov rscratch1 obj
    ∷ shr_imm rscratch1 3
    ∷ and_low rscratch1 3
    ∷ mov rscratch2 rcx
    ∷ mov32 rcx rscratch1
    ∷ shr_cl tmp5
    ∷ mov rcx rscratch2
    ∷ and_low tmp5 1
    ∷ []

-- `movptr(c_rarg2, val == noreg ? (int32_t) NULL_WORD : val)`: the choice has the type `Register`, so the null word is
-- the register with the number 0.
abbrev pub pass_value : Option ℕ → Instruction
pass_value none = mov c_rarg2 rax
pass_value (some val) = mov c_rarg2 val

call_with : Address → Option ℕ → Function → List Instruction
call_with dst val f =
    pusha ∷ mov c_rarg0 dst.base ∷ lea c_rarg1 dst ∷ pass_value val ∷ call f ∷ popa ∷ []

unfoldable pub object_reference_write_pre :
    Settings → (in_heap : Bool) → Address → (val : Option ℕ) → (tmp1 tmp2 : ℕ) → List Instruction
unfolding can_remove_barrier load_unlog_bit call_with
object_reference_write_pre s in_heap dst val tmp1 tmp2 =
    if can_remove_barrier in_heap false val
    then []
    else if s.barrier_fastpath
    then load_unlog_bit s dst.base (choose_tmp dst tmp1 tmp2)
      ++ cmp_imm (choose_tmp dst tmp1 tmp2) 1 ∷ jcc not_equal done ∷ []
      ++ call_with dst val object_reference_write_slow_call
      ++ bind done ∷ []
    else call_with dst val object_reference_write_pre_call

unfoldable pub arraycopy_prologue : BasicType → (src dst count : ℕ) → List Instruction
arraycopy_prologue type src dst count =
    if is_oop type
    then cmp_imm count 0
      ∷ jcc equal done
      ∷ pusha
      ∷ mov c_rarg0 src
      ∷ mov c_rarg1 dst
      ∷ mov c_rarg2 count
      ∷ call object_reference_array_copy_pre_call
      ∷ popa
      ∷ bind done
      ∷ []
    else []

-- The code that the client compiler jumps to, up to its call of the runtime stub. `patched` is the
-- scratch register and the address where the slot needs patching; the patched load before its `lea` is
-- OpenJDK's.
unfoldable pub generate_c1_pre_write_barrier_stub :
    (patched : Option (ℕ × Address)) → (src slot new_val : ℕ) → List Instruction
generate_c1_pre_write_barrier_stub (some (scratch, from_addr)) src slot new_val =
    lea scratch from_addr
    ∷ store_parameter 1 scratch
    ∷ store_parameter 0 src
    ∷ store_parameter 2 new_val
    ∷ []
generate_c1_pre_write_barrier_stub none src slot new_val =
    store_parameter 1 slot ∷ store_parameter 0 src ∷ store_parameter 2 new_val ∷ []

unfoldable pub generate_c1_pre_write_barrier_runtime_stub : Settings → List Instruction
generate_c1_pre_write_barrier_runtime_stub s =
    push c_rarg0
    ∷ push c_rarg1
    ∷ push c_rarg2
    ∷ push rax
    ∷ load_parameter 0 c_rarg0
    ∷ load_parameter 1 c_rarg1
    ∷ load_parameter 2 c_rarg2
    ∷ save_live_registers
    ∷ call (
        if s.barrier_fastpath
        then object_reference_write_slow_call
        else object_reference_write_pre_call)
    ∷ restore_live_registers
    ∷ pop rax
    ∷ pop c_rarg2
    ∷ pop c_rarg1
    ∷ pop c_rarg0
    ∷ []

-- The runtime stub of the reference load barrier.
unfoldable pub generate_c1_ref_load_barrier_runtime_stub : List Instruction
generate_c1_ref_load_barrier_runtime_stub =
    push c_rarg0
    ∷ push rax
    ∷ load_parameter 0 c_rarg0
    ∷ save_live_registers
    ∷ call load_reference_call
    ∷ restore_live_registers
    ∷ pop rax
    ∷ pop c_rarg0
    ∷ []

-- The code that the client compiler jumps to, with the runtime stub in place of its call.
unfoldable pub generate_c1_ref_load_barrier_stub_call :
    (runtime_stub : List Instruction) → (val_reg : ℕ) → List Instruction
generate_c1_ref_load_barrier_stub_call runtime_stub val_reg =
    cmp_imm val_reg 0 ∷ jcc equal done ∷ store_parameter 0 val_reg ∷ runtime_stub ++ bind done ∷ []
