-- ===== src/X86/Cpu.antt =====
-- The instructions that the emitters use, and what the processor does with them. An emitter's
-- `masm->` call becomes the instruction that it stands for; jumps go forward, to a label that the same
-- code binds. Registers go by their numbers, words are of 64 bits.
use mmtk_openjdk.Base.{
  ℕ, ◌+◌, ◌*◌, ◌/◌, ◌%◌, ◌^◌, Bool, not, List, [], ◌∷◌, ◌++◌, Option, none, some, ltb, leb, ◌==◌,
  if◌then◌else◌, u64, add64,
}
use Prim.Native.Nat.{bit_or, bit_xor}
use mmtk_openjdk.Barriers.Metadata.{load_byte}
use mmtk_openjdk.Barriers.Runtime.{
  CoreCall, write_pre, write_post, write_slow, array_copy_pre, array_copy_post, load_reference,
}

abbrev pub rax : ℕ
rax = 0

abbrev pub rcx : ℕ
rcx = 1

abbrev pub c_rarg2 : ℕ
c_rarg2 = 2

abbrev pub c_rarg1 : ℕ
c_rarg1 = 6

abbrev pub c_rarg0 : ℕ
c_rarg0 = 7

abbrev pub rscratch1 : ℕ
rscratch1 = 10

abbrev pub rscratch2 : ℕ
rscratch2 = 11

-- `Address(base, index, scale, disp)`; `none` is `noreg`.
pub record Address : Type 0 where
  pub base : ℕ
  pub index : Option ℕ
  pub scale : ℕ
  pub disp : ℕ

-- The static functions of `MMTkBarrierSetRuntime` that compiled code calls.
pub data Function : Type 0 where
  object_reference_write_pre_call object_reference_write_post_call : Function
  object_reference_write_slow_call : Function
  object_reference_array_copy_pre_call object_reference_array_copy_post_call : Function
  load_reference_call : Function

-- What each passes on to mmtk-core.
unfoldable pub runtime_call : Function → (a b c : ℕ) → CoreCall
runtime_call object_reference_write_pre_call a b c = write_pre a b c
runtime_call object_reference_write_post_call a b c = write_post a b c
runtime_call object_reference_write_slow_call a b c = write_slow a b c
runtime_call object_reference_array_copy_pre_call a b c = array_copy_pre a b c
runtime_call object_reference_array_copy_post_call a b c = array_copy_post a b c
runtime_call load_reference_call a b c = load_reference a

pub data Condition : Type 0 where
  equal not_equal below above above_equal : Condition

pub data Instruction : Type 0 where
  mov mov32 xor or : (dst src : ℕ) → Instruction
  mov_imm shr_imm and_low add_imm : (dst value : ℕ) → Instruction  -- `and_low d k`: & 2 ^ k - 1
  shr_cl shl_cl : (dst : ℕ) → Instruction
  load_byte_zx load_low_byte : (dst base index : ℕ) → Instruction  -- movzbl, movb
  load_low_byte_at : (dst base : ℕ) → Instruction  -- movb
  store_low_byte : (base index src : ℕ) → Instruction  -- movb
  load_word : (dst base offset : ℕ) → Instruction
  store_word : (base offset src : ℕ) → Instruction
  add_word : (base offset src : ℕ) → Instruction
  add_word_imm : (base offset value : ℕ) → Instruction
  lea : (dst : ℕ) → Address → Instruction
  cmp : (a b : ℕ) → Instruction
  cmp_imm : (a value : ℕ) → Instruction
  cmp_word : (a base offset : ℕ) → Instruction
  jcc : Condition → (label : ℕ) → Instruction
  jmp : (label : ℕ) → Instruction
  bind : (label : ℕ) → Instruction
  pusha popa : Instruction
  push pop : (r : ℕ) → Instruction
  store_parameter load_parameter : (index r : ℕ) → Instruction  -- of a client compiler's stub
  save_live_registers restore_live_registers : Instruction
  call : Function → Instruction

pub record Cpu : Type 0 where
  pub registers : ℕ → ℕ
  pub bytes : ℕ → ℕ
  pub words : ℕ → ℕ
  pub compared : ℕ × ℕ
  pub saved : ℕ → ℕ
  pub live : ℕ → ℕ
  pub stack : List ℕ
  pub parameters : ℕ → ℕ
  pub calls : List CoreCall

abbrev pub set_at : (ℕ → ℕ) → ℕ → ℕ → ℕ → ℕ
set_at f k v a = if a == k then v else f a

abbrev pub set : ℕ → ℕ → Cpu → Cpu
set r v s = record s { registers = set_at s.registers r v }

abbrev pub index_value : Option ℕ → ℕ → (ℕ → ℕ) → ℕ
index_value none scale registers = 0
index_value (some i) scale registers = registers i * scale

-- The address that `lea` computes.
abbrev pub effective : Address → (ℕ → ℕ) → ℕ
effective a registers = u64 (registers a.base + index_value a.index a.scale registers + a.disp)

abbrev pub holds : Condition → ℕ × ℕ → Bool
holds equal (a, b) = a == b
holds not_equal (a, b) = not (a == b)
holds below (a, b) = ltb a b
holds above (a, b) = ltb b a
holds above_equal (a, b) = leb b a

abbrev pub first : List ℕ → ℕ
first [] = 0
first (x ∷ rest) = x

abbrev pub behind : List ℕ → List ℕ
behind [] = []
behind (x ∷ rest) = rest

-- A call of C code leaves the registers that the callee need not keep with any value at all:
-- `clobber` gives the registers after a call from those before it.
module _ (clobber : (ℕ → ℕ) → ℕ → ℕ) where
  abbrev pub step : Instruction → Cpu → Cpu
  step (mov d r) s = set d (s.registers r) s
  step (mov32 d r) s = set d (s.registers r % 2 ^ 32) s
  step (xor d r) s = set d (if d == r then 0 else bit_xor (s.registers d) (s.registers r)) s
  step (or d r) s = set d (bit_or (s.registers d) (s.registers r)) s
  step (mov_imm d v) s = set d v s
  step (shr_imm d k) s = set d (s.registers d / 2 ^ k) s
  step (and_low d k) s = set d (s.registers d % 2 ^ k) s
  step (add_imm d v) s = set d (add64 (s.registers d) v) s
  step (shr_cl d) s = set d (s.registers d / 2 ^ (s.registers rcx % 64)) s
  step (shl_cl d) s = set d (u64 (s.registers d * 2 ^ (s.registers rcx % 64))) s
  step (load_byte_zx d b i) s = set d (load_byte s.bytes (add64 (s.registers b) (s.registers i))) s
  step (load_low_byte d b i) s =
      set d (s.registers d / 256 * 256 + load_byte s.bytes (add64 (s.registers b) (s.registers i)))
        s
  step (load_low_byte_at d b) s =
      set d (s.registers d / 256 * 256 + load_byte s.bytes (s.registers b)) s
  step (store_low_byte b i r) s = record s {
    bytes = set_at s.bytes (add64 (s.registers b) (s.registers i)) (s.registers r % 256);
  }
  step (load_word d b o) s = set d (s.words (add64 (s.registers b) o)) s
  step (store_word b o r) s = record s {
    words = set_at s.words (add64 (s.registers b) o) (s.registers r);
  }
  step (add_word b o r) s =
      let a = add64 (s.registers b) o in
      record s { words = set_at s.words a (add64 (s.words a) (s.registers r)) }
  step (add_word_imm b o v) s =
      let a = add64 (s.registers b) o in record s { words = set_at s.words a (add64 (s.words a) v) }
  step (lea d a) s = set d (effective a s.registers) s
  step (cmp a b) s = record s { compared = (s.registers a, s.registers b) }
  step (cmp_imm a v) s = record s { compared = (s.registers a, v) }
  step (cmp_word a b o) s = record s {
    compared = (s.registers a, s.words (add64 (s.registers b) o));
  }
  step pusha s = record s { saved = s.registers }
  step popa s = record s { registers = s.saved }
  step (push r) s = record s { stack = s.registers r ∷ s.stack }
  step (pop r) s = record s {
    registers = set_at s.registers r (first s.stack);
    stack = behind s.stack;
  }
  step (store_parameter k r) s = record s { parameters = set_at s.parameters k (s.registers r) }
  step (load_parameter k r) s = set r (s.parameters k) s
  step save_live_registers s = record s { live = s.registers }
  step restore_live_registers s = record s { registers = s.live }
  step (call f) s = record s {
    calls =
        s.calls
        ++ runtime_call f (s.registers c_rarg0) (s.registers c_rarg1) (s.registers c_rarg2) ∷ [];
    registers = clobber s.registers;
  }
  step _ s = s

  -- The code, from its start or on the way to a label: where it ends, with the label that it leaves
  -- for, if any.
  unfoldable pub exec : List Instruction → Option ℕ → Cpu → Option ℕ × Cpu
  exec [] to s = (to, s)
  exec (jcc c l ∷ rest) none s =
      if holds c s.compared then exec rest (some l) s else exec rest none s
  exec (jmp l ∷ rest) none s = exec rest (some l) s
  exec (i ∷ rest) none s = exec rest none (step i s)
  exec (bind l ∷ rest) (some k) s = exec rest (if l == k then none else some k) s
  exec (i ∷ rest) (some k) s = exec rest (some k) s
