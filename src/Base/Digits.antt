-- ===== src/Base/Digits.antt =====
-- The binary operations of the processor, digit by digit.
use Prim.Native.Nat.{
  ℕ, zero, suc, ◌+◌, ◌*◌, ◌/◌, ◌%◌, ◌≤◌, bit_or, bit_xor, bit_or-bitwise, bit_xor-bitwise, digits,
  max, differ,
}
use mathlib.Core.Path.{◌≡◌, refl}
use native.Mathlib.Omega.{arith}

module _ (op : ℕ → ℕ → ℕ) where
  abbrev each_digit : ℕ → ℕ → ℕ → ℕ
  each_digit n a b = digits (λ b. b) op n a b

  -- Any number of digits that is enough gives the same.
  each_digit_enough : (n m a b : ℕ) → a ≤ n → a ≤ m → each_digit n a b ≡ each_digit m a b
  each_digit_enough zero zero a b p q = refl
  each_digit_enough zero (suc m) zero b p q = refl
  each_digit_enough zero (suc m) (suc a) b p q = absurd (omega arith)
  each_digit_enough (suc n) zero zero b p q = refl
  each_digit_enough (suc n) zero (suc a) b p q = absurd (omega arith)
  each_digit_enough (suc n) (suc m) zero b p q = refl
  each_digit_enough (suc n) (suc m) (suc a) b p q =
      omega (arith, each_digit_enough n m (suc a / 2) (b / 2) (omega arith) (omega arith))

pub bit_or-next : (a b : ℕ) → bit_or a b ≡ bit_or (a / 2) (b / 2) * 2 + max (a % 2) (b % 2)
bit_or-next zero b = omega (arith, bit_or-bitwise 0 b, bit_or-bitwise 0 (b / 2))
bit_or-next (suc a) b = omega (
  arith,
  bit_or-bitwise (suc a) b,
  bit_or-bitwise (suc a / 2) (b / 2),
  each_digit_enough max a (suc a / 2) (suc a / 2) (b / 2) (omega arith) (omega arith),
)

pub bit_xor-next : (a b : ℕ) → bit_xor a b ≡ bit_xor (a / 2) (b / 2) * 2 + differ (a % 2) (b % 2)
bit_xor-next zero b = omega (arith, bit_xor-bitwise 0 b, bit_xor-bitwise 0 (b / 2))
bit_xor-next (suc a) b = omega (
  arith,
  bit_xor-bitwise (suc a) b,
  bit_xor-bitwise (suc a / 2) (b / 2),
  each_digit_enough differ a (suc a / 2) (suc a / 2) (b / 2) (omega arith) (omega arith),
)
