-- ===== src/X86/Object.antt =====
-- The object barrier in assembly: `MMTkObjectBarrierSetAssembler`
-- (openjdk/barriers/mmtkObjectBarrier.cpp).
pub mod Calls
use mmtk_openjdk.Base.{
  ℕ, Bool, true, false, not, ◌&&◌, List, [], ◌∷◌, ◌++◌, Option, none, some, if◌then◌else◌,
}
use mmtk_openjdk.Barriers.Runtime.{Settings}
use mmtk_openjdk.X86.Cpu.{
  rax, rcx, c_rarg0, c_rarg1, c_rarg2, rscratch1, rscratch2, Address,
  object_reference_write_slow_call, object_reference_write_post_call,
  object_reference_array_copy_post_call, not_equal, Instruction, mov, mov32, xor, mov_imm, shr_imm,
  and_low, shr_cl, load_low_byte, cmp_imm, jcc, bind, call, pusha, popa, push, pop, store_parameter,
  load_parameter, save_live_registers, restore_live_registers,
}
use mmtk_openjdk.X86.Elision.{BasicType, is_oop, can_remove_barrier}

abbrev done : ℕ
done = 0

-- From `tmp2 = load-byte` to the mask of the bit: the unlog bit goes to `tmp2`.
unfoldable pub load_unlog_bit : Settings → (obj tmp2 : ℕ) → List Instruction
load_unlog_bit s obj tmp2 =
    mov rscratch1 obj
    ∷ shr_imm rscratch1 6
    ∷ mov_imm tmp2 s.metadata_base
    ∷ load_low_byte tmp2 tmp2 rscratch1
    ∷ mov rscratch1 obj
    ∷ shr_imm rscratch1 3
    ∷ and_low rscratch1 3
    ∷ mov rscratch2 rcx
    ∷ mov32 rcx rscratch1
    ∷ shr_cl tmp2
    ∷ mov rcx rscratch2
    ∷ and_low tmp2 1
    ∷ []

pass_object : (obj : ℕ) → List Instruction
pass_object obj = mov c_rarg0 obj ∷ xor c_rarg1 c_rarg1 ∷ xor c_rarg2 c_rarg2 ∷ []

unfoldable pub object_reference_write_post :
    Settings → (in_heap : Bool) → Address → (val : Option ℕ) → (tmp2 : ℕ) → List Instruction
unfolding can_remove_barrier load_unlog_bit pass_object
object_reference_write_post s in_heap dst val tmp2 =
    if can_remove_barrier in_heap true val
    then []
    else if s.barrier_fastpath
    then load_unlog_bit s dst.base tmp2
      ++ cmp_imm tmp2 1 ∷ jcc not_equal done ∷ []
      ++ pass_object dst.base
      ++ call object_reference_write_slow_call ∷ bind done ∷ []
    else pass_object dst.base ++ call object_reference_write_post_call ∷ []

-- The decorators of an array copy, and `UseCompressedOops`.
pub record Copy : Type 0 where
  pub checkcast : Bool
  pub disjoint : Bool
  pub dest_uninitialized : Bool
  pub use_compressed_oops : Bool

-- `obj_int`
abbrev pub is_int : Copy → BasicType → Bool
is_int c BasicType.t_object = c.use_compressed_oops
is_int c _ = false

unfoldable pub arraycopy_prologue : Copy → BasicType → (src dst count : ℕ) → List Instruction
arraycopy_prologue c type src dst count =
    if is_oop type && not c.checkcast
    then (if not (is_int c type)
        then mov rscratch2 count ∷ []
        else if c.disjoint
        then mov rscratch2 dst ∷ []
        else [])
    else []

-- The register of the count, and that of the destination, after the copy.
unfoldable pub count_after : Copy → BasicType → ℕ → ℕ
count_after c type count = if not c.checkcast && not (is_int c type) then rscratch2 else count

unfoldable pub dst_after : Copy → BasicType → ℕ → ℕ
dst_after c type dst = if not c.checkcast && is_int c type && c.disjoint then rscratch2 else dst

unfoldable pub arraycopy_epilogue : Copy → BasicType → (src dst count : ℕ) → List Instruction
unfolding count_after dst_after
arraycopy_epilogue c type src dst count =
    if is_oop type && not c.dest_uninitialized
    then pusha
      ∷ mov c_rarg0 src
      ∷ mov c_rarg1 (dst_after c type dst)
      ∷ mov c_rarg2 (count_after c type count)
      ∷ call object_reference_array_copy_post_call
      ∷ popa
      ∷ []
    else []

-- The code that the client compiler jumps to, up to its call of the runtime stub.
unfoldable pub generate_c1_post_write_barrier_stub : (src slot new_val : ℕ) → List Instruction
generate_c1_post_write_barrier_stub src slot new_val =
    store_parameter 0 src ∷ store_parameter 1 slot ∷ store_parameter 2 new_val ∷ []

unfoldable pub generate_c1_post_write_barrier_runtime_stub : Settings → List Instruction
generate_c1_post_write_barrier_runtime_stub s =
    push c_rarg0
    ∷ push c_rarg1
    ∷ push c_rarg2
    ∷ push rax
    ∷ load_parameter 0 c_rarg0
    ∷ load_parameter 1 c_rarg1
    ∷ load_parameter 2 c_rarg2
    ∷ save_live_registers
    ∷ call (
        if s.barrier_fastpath
        then object_reference_write_slow_call
        else object_reference_write_post_call)
    ∷ restore_live_registers
    ∷ pop rax
    ∷ pop c_rarg2
    ∷ pop c_rarg1
    ∷ pop c_rarg0
    ∷ []
