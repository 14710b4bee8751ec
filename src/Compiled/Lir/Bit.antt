-- ===== src/Compiled/Lir/Bit.antt =====
-- The code that tests the unlog bit, instruction by instruction.
use mmtk_openjdk.Base.{
  ℕ, suc, ◌/◌, ◌%◌, ◌^◌, ◌<◌, ◌≡◌, refl, ap, ap₂, Bool, List, [], ◌∷◌, none, some, add64, arith,
}
use mmtk_openjdk.Barriers.Metadata.{load_byte}
use mmtk_openjdk.Barriers.Runtime.{Settings}
use mmtk_openjdk.Compiled.Bits.{sign_extended, compiled_bit}
use mmtk_openjdk.X86.Cpu.{Cpu, set}
use mmtk_openjdk.Compiled.Lir.{
  register, constant, Lir, move, move_byte, unsigned_shift_right, unsigned_shift_right_int,
  unsigned_shift_right_by, logical_and, cmp, lir_step, run,
}
use mmtk_openjdk.Compiled.Lir.Operands.{IsKept}

module _ (s : Settings) (addr n : ℕ) (below : addr < n) (c : Cpu) where
  abbrev v : ℕ
  v = c.registers addr

  abbrev byte : ℕ
  byte = sign_extended (load_byte c.bytes (add64 s.metadata_base (v / 2 ^ 6)))

  abbrev shift : ℕ
  shift = v % 2 ^ 32 / 2 ^ 3 % 2 ^ 3

  abbrev with_address : Cpu
  with_address = set (suc n) s.metadata_base (set n (v / 2 ^ 6) (set n v c))

  abbrev with_byte : Cpu
  with_byte = set (suc (suc n)) byte with_address

  abbrev with_shift_address : Cpu
  with_shift_address = set (suc (suc (suc n))) v with_byte

  abbrev shifted : Cpu
  shifted = set (suc (suc (suc n))) (v % 2 ^ 32 / 2 ^ 3) with_shift_address

  abbrev with_shift : Cpu
  with_shift = set (suc (suc (suc n))) shift shifted

  abbrev byte_shifted : Cpu
  byte_shifted = set (suc (suc n)) (byte % 2 ^ 32 / 2 ^ (shift % 32)) with_shift

  abbrev with_bit : Cpu
  with_bit = set (suc (suc n)) (byte % 2 ^ 32 / 2 ^ (shift % 32) % 2) byte_shifted

  step_offset :
      lir_step (unsigned_shift_right n 6) (lir_step (move (register addr) n) c)
      ≡ set n (v / 2 ^ 6) (set n v c)
  unfolding lir_step
  step_offset = ap (λ x. set n x (set n v c)) (ground arith)

  step_base :
      lir_step (move (constant s.metadata_base) (suc n)) (set n (v / 2 ^ 6) (set n v c))
      ≡ with_address
  unfolding lir_step
  step_base = refl

  step_byte : lir_step (move_byte (suc n) (some n) (suc (suc n))) with_address ≡ with_byte
  unfolding lir_step
  step_byte = ap (λ x. set (suc (suc n)) x with_address) (ground arith)

  step_move : lir_step (move (register addr) (suc (suc (suc n)))) with_byte ≡ with_shift_address
  unfolding lir_step
  step_move = ap (λ x. set (suc (suc (suc n))) x with_byte) (ground arith)

  step_shifted :
      lir_step (unsigned_shift_right_int (suc (suc (suc n))) 3) with_shift_address ≡ shifted
  unfolding lir_step
  step_shifted = ap (λ x. set (suc (suc (suc n))) x with_shift_address) (ground arith)

  step_shift : lir_step (logical_and (suc (suc (suc n))) 3) shifted ≡ with_shift
  unfolding lir_step
  step_shift = ap (λ x. set (suc (suc (suc n))) x shifted) (ground arith)

  byte_read : with_shift.registers (suc (suc n)) ≡ byte
  byte_read = ground arith

  shift_read : with_shift.registers (suc (suc (suc n))) ≡ shift
  shift_read = ground arith

  step_bits :
      lir_step (unsigned_shift_right_by (suc (suc n)) (suc (suc (suc n)))) with_shift ≡ byte_shifted
  unfolding lir_step
  step_bits =
      ap₂ (λ x y. set (suc (suc n)) (x % 2 ^ 32 / 2 ^ (y % 32)) with_shift) byte_read shift_read

  step_bit : lir_step (logical_and (suc (suc n)) 1) byte_shifted ≡ with_bit
  unfolding lir_step
  step_bit = ap (λ x. set (suc (suc n)) x byte_shifted) (ground arith)

  -- The bit that the code finds.
  unfoldable pub found : ℕ
  found = byte % 2 ^ 32 / 2 ^ (shift % 32) % 2

  unfoldable pub tested : Cpu
  tested = record with_bit { compared = (found, 1) }

  step_cmp : lir_step (cmp (suc (suc n)) 1) with_bit ≡ tested
  unfolding lir_step tested found
  step_cmp = ap (λ x. record with_bit { compared = (x, 1) }) (ground arith)

  unfoldable pub bit_code : List Lir
  bit_code =
      move (register addr) n
      ∷ unsigned_shift_right n 6
      ∷ move (constant s.metadata_base) (suc n)
      ∷ move_byte (suc n) (some n) (suc (suc n))
      ∷ move (register addr) (suc (suc (suc n)))
      ∷ unsigned_shift_right_int (suc (suc (suc n))) 3
      ∷ logical_and (suc (suc (suc n))) 3
      ∷ unsigned_shift_right_by (suc (suc n)) (suc (suc (suc n)))
      ∷ logical_and (suc (suc n)) 1
      ∷ cmp (suc (suc n)) 1
      ∷ []

  pub bit_code-tested :
      (clobber : (ℕ → ℕ) → ℕ → ℕ) (is_referent : Bool)
      → run clobber s is_referent bit_code none c ≡ (none, tested)
  unfolding run bit_code
  bit_code-tested clobber is_referent =
      rw
        (
          step_offset, step_base, step_byte, step_move, step_shifted, step_shift, step_bits,
          step_bit, step_cmp,
        )
        refl

  pub tested-compared : tested.compared ≡ (found, 1)
  unfolding tested
  tested-compared = refl

  pub tested-IsKept : IsKept n c tested
  unfolding tested
  tested-IsKept = record {
    registers = λ a lt. ground arith;
    bytes = refl;
    words = refl;
    calls = refl;
  }

  pub found-bit : found ≡ compiled_bit s.metadata_base c.bytes v
  unfolding found compiled_bit
  found-bit =
      let small : byte % 2 ^ 32 ≡ byte = ground arith in
      let same : shift % 32 ≡ v / 2 ^ 3 % 2 ^ 32 % 8 = omega arith in
      ap₂ (λ x y. x / 2 ^ y % 2) small same
