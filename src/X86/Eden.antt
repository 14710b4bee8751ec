-- ===== src/X86/Eden.antt =====
-- The allocation fast path in assembly: `MMTkBarrierSetAssembler::eden_allocate`
-- (openjdk/mmtkBarrierSetAssembler_x86.cpp).
pub mod Bump
pub mod VoBit
use mmtk_openjdk.Base.{
  ℕ, ◌+◌, ◌-◌, ◌≡◌, Bool, true, false, not, ◌||◌, List, [], ◌∷◌, ◌++◌, Option, none, some, ltb,
  if◌then◌else◌, sub64,
}
use mmtk_openjdk.Alloc.Layout.{
  Tag, bump_pointer, large_object, malloc, immix, mark_compact, free_list, Offsets,
}
use mmtk_openjdk.X86.Cpu.{
  rax, rcx, rscratch1, below, above, above_equal, Instruction, mov, mov_imm, shr_imm, and_low,
  add_imm, shl_cl, or, load_low_byte, store_low_byte, load_word, store_word, add_word, add_word_imm,
  lea, cmp, cmp_imm, cmp_word, jcc, jmp,
}

abbrev pub rdi : ℕ
rdi = 7

abbrev pub r15_thread : ℕ
r15_thread = 15

abbrev pub slow_case : ℕ
slow_case = 0

abbrev pub is_mark_compact : Tag → Bool
is_mark_compact mark_compact = true
is_mark_compact _ = false

-- `TAG_MALLOC`, `TAG_LARGE_OBJECT` and `TAG_FREE_LIST`
abbrev pub has_no_fastpath : Tag → Bool
has_no_fastpath malloc = true
has_no_fastpath large_object = true
has_no_fastpath free_list = true
has_no_fastpath _ = false

-- `var_size_in_bytes` is a register, or `noreg` where the size is constant.
pub data Size : Type 0 where
  constant : (bytes : ℕ) → Size
  variable : (register : ℕ) → Size

-- What the emitter reads beside its arguments: `mmtk_enable_allocation_fastpath`,
-- `max_non_los_default_alloc_bytes`, `MMTK_MARK_COMPACT_HEADER_RESERVED_IN_BYTES`, the tag of the default
-- allocator and the offsets of its buffer, `MMTK_ENABLE_VO_BIT`, `VO_BIT_BASE_ADDRESS` and
-- `JavaThread::allocated_bytes_offset()`.
pub record Setup : Type 0 where
  pub allocation_fastpath : Bool
  pub max_non_los_bytes : ℕ
  pub header_reserved : ℕ
  pub tag : Tag
  pub offsets : Offsets
  pub enable_vo_bit : Bool
  pub vo_bit_base : ℕ
  pub allocated_bytes_offset : ℕ

unfoldable pub extra_header : Setup → ℕ
extra_header s = if is_mark_compact s.tag then s.header_reserved else 0

-- Is a constant size sent to the slow path when the code is emitted?
unfoldable pub is_too_big : Setup → Size → Bool
unfolding extra_header
is_too_big s (constant bytes) = ltb (sub64 s.max_non_los_bytes (extra_header s)) bytes
is_too_big s (variable r) = false

check_size : Setup → Size → List Instruction
unfolding extra_header
check_size s (constant bytes) = []
check_size s (variable r) =
    cmp_imm r (sub64 s.max_non_los_bytes (extra_header s)) ∷ jcc above_equal slow_case ∷ []

end_of : Size → (obj end : ℕ) → Instruction
end_of (constant bytes) obj end =
    lea end (record { base = obj; index = none; scale = 1; disp = bytes })
end_of (variable r) obj end = lea end (record { base = obj; index = some r; scale = 1; disp = 0 })

unfoldable pub bump : Setup → Size → (obj t1 : ℕ) → List Instruction
unfolding extra_header end_of
bump s size obj t1 =
    load_word obj r15_thread s.offsets.tlab_top_offset
      ∷ (if is_mark_compact s.tag then add_imm obj (extra_header s) ∷ [] else [])
    ++ end_of size obj t1
      ∷ cmp t1 obj
      ∷ jcc below slow_case
      ∷ cmp_word t1 r15_thread s.offsets.tlab_end_offset
      ∷ jcc above slow_case
      ∷ store_word r15_thread s.offsets.tlab_top_offset t1
      ∷ []

-- The valid-object bit of the new object.
unfoldable pub set_vo_bit : Setup → (obj : ℕ) → List Instruction
set_vo_bit s obj =
    if s.enable_vo_bit || is_mark_compact s.tag
    then mov rdi obj
      ∷ shr_imm rdi 6
      ∷ mov_imm rscratch1 s.vo_bit_base
      ∷ load_low_byte rscratch1 rscratch1 rdi
      ∷ mov rcx obj
      ∷ shr_imm rcx 3
      ∷ and_low rcx 3
      ∷ mov_imm rdi 1
      ∷ shl_cl rdi
      ∷ or rscratch1 rdi
      ∷ mov rdi obj
      ∷ shr_imm rdi 6
      ∷ mov_imm rcx s.vo_bit_base
      ∷ store_low_byte rcx rdi rscratch1
      ∷ []
    else []

count_bytes : Setup → Size → List Instruction
unfolding extra_header
count_bytes s (constant bytes) =
    add_word_imm r15_thread s.allocated_bytes_offset bytes
    ∷ add_word_imm r15_thread s.allocated_bytes_offset (extra_header s)
    ∷ []
count_bytes s (variable r) =
    add_word r15_thread s.allocated_bytes_offset r
    ∷ add_word_imm r15_thread s.allocated_bytes_offset (extra_header s)
    ∷ []

unfoldable pub eden_allocate : Setup → Size → (obj t1 : ℕ) → List Instruction
unfolding is_too_big check_size bump set_vo_bit count_bytes
eden_allocate s size obj t1 =
    if not s.allocation_fastpath
    then jmp slow_case ∷ []
    else if is_too_big s size
    then jmp slow_case ∷ []
    else if has_no_fastpath s.tag
    then check_size s size ++ jmp slow_case ∷ []
    else check_size s size ++ bump s size obj t1 ++ set_vo_bit s obj ++ count_bytes s size
