-- ===== src/Tests/X86.antt =====
-- Emitted barriers and an emitted allocation, on a processor with few settings.
use mmtk_openjdk.Base.{
  List, ℕ, ◌+◌, ◌*◌, ◌≡◌, ◌≢◌, refl, true, false, [], ◌∷◌, ◌++◌, none, some, ◌==◌, if◌then◌else◌,
  arith,
}
use mmtk_openjdk.Barriers.Metadata.{IsAddress, load_byte}
use mmtk_openjdk.Barriers.Runtime.{Settings, satb_barrier, load_reference_barrier}
use mmtk_openjdk.Alloc.Layout.{bump_pointer}
use mmtk_openjdk.X86.Cpu.{rscratch1, rscratch2, rax, Address, Cpu, effective, exec}
use mmtk_openjdk.X86.Elision.{t_object}
use mmtk_openjdk.X86.Satb as satb
use mmtk_openjdk.X86.Satb.{choose_tmp}
use mmtk_openjdk.X86.Satb.Calls.{load_at_barrier-runtime}
use mmtk_openjdk.X86.Cpu.{Instruction, shr_imm, store_word}
use mmtk_openjdk.X86.Stores.{store_at, IsRawStore, AreApart, runtime_calls, store_at-runtime}
use mmtk_openjdk.X86.Eden.{Setup, set_vo_bit}
use mmtk_openjdk.X86.Eden.VoBit.{set_vo_bit-sets}
use mmtk_openjdk.Alloc.Expand.{Buffer, allocated}
use mmtk_openjdk.Alloc.Expand as expand
use mmtk_openjdk.Alloc.Expand.VoBit.{SetsBit, vo_bit}

-- A call leaves 99 in every register but the thread's.
abbrev clobber : (ℕ → ℕ) → ℕ → ℕ
clobber registers a = if a == 15 then registers a else 99

abbrev settings : Settings
settings = record { metadata_base = 4096; barrier_fastpath = true }

-- Register `r` holds 1000 + 8 r; every byte of the metadata is 255, and the thread's words begin at 0.
abbrev cpu : Cpu
cpu = record {
  registers = λ r. if r == 15 then 0 else 1000 + 8 * r;
  bytes = λ a. 255;
  words = λ a. if a == 8 then 64 else if a == 16 then 128 else 0;
  compared = (0, 0);
  saved = λ r. 0;
  live = λ r. 0;
  stack = [];
  parameters = λ i. 0;
  calls = [];
}

-- The field at offset 16 of the object in register 3.
abbrev field : Address
field = record { base = 3; index = none; scale = 1; disp = 16 }

-- A store of OpenJDK that compresses the value in its register.
abbrev raw : List Instruction
raw = shr_imm 8 3 ∷ store_word 3 16 8 ∷ []

raw-IsRawStore : IsRawStore clobber raw 3
unfolding exec
raw-IsRawStore c = (refl, refl, ground arith, refl)

registers-AreApart : AreApart 3 8 (choose_tmp field 9 12) 12
unfolding choose_tmp
registers-AreApart = record {
  base_outside = (ground arith, ground arith, ground arith, ground arith);
  val_outside = (ground arith, ground arith, ground arith, ground arith);
  val_arg0 = ground arith;
  val_arg1 = ground arith;
  tmp_outside = (ground arith, ground arith, ground arith);
  base_tmp2 = ground arith;
  tmp2_outside = (ground arith, ground arith, ground arith);
}

store_at-runtime_example :
    let (to, c') =
      exec clobber
        (store_at raw satb_barrier settings true t_object field (some 8) 9 12)
        none
        cpu in
    (to ≡ none)
    × (c'.calls
        ≡ []
          ++ runtime_calls settings cpu.bytes satb_barrier 1024
              (effective field cpu.registers)
              1064)
store_at-runtime_example =
    store_at-runtime clobber raw settings cpu t_object 3 1 16 8 9 12 satb_barrier refl
      raw-IsRawStore registers-AreApart (omega arith)

load_at_barrier-runtime_example :
    let (to, c') = exec clobber (satb.load_at_barrier 512 t_object true 3) none cpu in
    (to ≡ none)
    × (c'.calls ≡ [] ++ load_reference_barrier satb_barrier (load_byte cpu.bytes 512) 1024)
    × ((a : ℕ) → a ≢ rscratch1 → a ≢ rscratch2 → c'.registers a ≡ cpu.registers a)
load_at_barrier-runtime_example =
    load_at_barrier-runtime clobber cpu 512 t_object 3 refl (ground arith) (ground arith)

-- The buffer runs from 64 to 128.
abbrev setup : Setup
setup = record {
  allocation_fastpath = true;
  max_non_los_bytes = 1024;
  header_reserved = 8;
  tag = bump_pointer;
  offsets = record { tlab_top_offset = 8; tlab_end_offset = 16 };
  enable_vo_bit = false;
  vo_bit_base = 4096;
  allocated_bytes_offset = 48;
}

abbrev vo_setup : Setup
vo_setup = record setup { enable_vo_bit = true }

abbrev unused : Buffer
unused = record { top = 1032; end = 2048; bytes = λ a. 0 }

set_vo_bit-sets_example :
    let (to, c') = exec clobber (set_vo_bit vo_setup rax) none cpu in
    (to ≡ none)
    × (c'.words ≡ cpu.words)
    × (c'.registers rax ≡ 1000)
    × ((a : ℕ)
        → IsAddress a
        → vo_bit vo_setup c'.bytes a ≡ (if a == 1000 then 1 else vo_bit vo_setup cpu.bytes a))
    × SetsBit vo_setup 1000 unused (expand.set_vo_bit vo_setup (allocated 1000 unused))
set_vo_bit-sets_example =
    set_vo_bit-sets clobber vo_setup cpu rax unused refl (ground arith) (ground arith)
      (ground arith) (ground arith)
