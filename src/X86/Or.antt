-- ===== src/X86/Or.antt =====
-- The `or` of the processor with a single bit, which `MMTkBarrierSetAssembler::eden_allocate`
-- (openjdk/mmtkBarrierSetAssembler_x86.cpp) uses on the byte of valid-object bits.
use Prim.Native.Nat.{bit_or, bit_or-bitwise}
use mmtk_openjdk.Base.Digits.{bit_or-next}
use mmtk_openjdk.Base.{u64, ℕ, zero, suc, ◌+◌, ◌*◌, ◌/◌, ◌%◌, ◌^◌, ◌≤◌, ◌<◌, ◌≡◌, arith}
use mmtk_openjdk.Alloc.Expand.{with_bit}
use mmtk_openjdk.Alloc.Expand.VoBit.{by_bit}

bit_or-zero_below : (n a : ℕ) → a ≤ n → bit_or a 0 ≡ a
bit_or-zero_below n zero h = bit_or-bitwise 0 0
bit_or-zero_below zero (suc a) h = absurd (omega arith)
bit_or-zero_below (suc n) (suc a) h =
    omega (arith, bit_or-next (suc a) 0, bit_or-zero_below n (suc a / 2) (omega arith))

bit_or-one : (a : ℕ) → bit_or a 1 ≡ a / 2 * 2 + 1
bit_or-one a = omega (arith, bit_or-next a 1, bit_or-zero_below (a / 2) (a / 2) (omega arith))

abbrev SetsBit : ℕ → Type 0
SetsBit k = (a : ℕ) → bit_or a (2 ^ k) ≡ with_bit a k

bit_or-0 : SetsBit 0
bit_or-0 a = ground (arith, bit_or-one a)

bit_or-1 : SetsBit 1
bit_or-1 a = ground (arith, bit_or-next a 2, bit_or-0 (a / 2))

bit_or-2 : SetsBit 2
bit_or-2 a = ground (arith, bit_or-next a 4, bit_or-1 (a / 2))

bit_or-3 : SetsBit 3
bit_or-3 a = ground (arith, bit_or-next a 8, bit_or-2 (a / 2))

bit_or-4 : SetsBit 4
bit_or-4 a = ground (arith, bit_or-next a 16, bit_or-3 (a / 2))

bit_or-5 : SetsBit 5
bit_or-5 a = ground (arith, bit_or-next a 32, bit_or-4 (a / 2))

bit_or-6 : SetsBit 6
bit_or-6 a = ground (arith, bit_or-next a 64, bit_or-5 (a / 2))

bit_or-7 : SetsBit 7
bit_or-7 a = ground (arith, bit_or-next a 128, bit_or-6 (a / 2))

-- One of the eight bits of a byte.
bit_or-pow : (a k : ℕ) → k < 8 → bit_or a (2 ^ k) ≡ with_bit a k
bit_or-pow a k lt =
    by_bit (λ j. bit_or a (2 ^ j) ≡ with_bit a j)
      (
        bit_or-0 a,
        bit_or-1 a,
        bit_or-2 a,
        bit_or-3 a,
        bit_or-4 a,
        bit_or-5 a,
        bit_or-6 a,
        bit_or-7 a,
      )
      k lt

-- The bits above the byte do not matter.
with_bit-low :
    (high byte k : ℕ) → byte < 256 → k < 8 → with_bit (high * 256 + byte) k % 256 ≡ with_bit byte k
with_bit-low high byte k small lt =
    by_bit (λ j. with_bit (high * 256 + byte) j % 256 ≡ with_bit byte j) (ground arith) k lt

shifted_one : (k : ℕ) → k < 8 → u64 (1 * 2 ^ (k % 64)) ≡ 2 ^ k
shifted_one k lt = by_bit (λ j. u64 (1 * 2 ^ (j % 64)) ≡ 2 ^ j) (ground arith) k lt

-- The byte that the code computes, from a register with anything in its upper bytes.
pub byte_with_bit :
    (high byte k : ℕ)
    → byte < 256
    → k < 8
    → bit_or (high * 256 + byte) (u64 (1 * 2 ^ (k % 64))) % 256 ≡ with_bit byte k
byte_with_bit high byte k small lt =
    rw (shifted_one k lt, bit_or-pow (high * 256 + byte) k lt) (with_bit-low high byte k small lt)
