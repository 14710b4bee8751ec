-- ===== src/Base/Words.antt =====
-- Words of 64 bits.
use Prim.Native.Nat.{ℕ, ◌+◌, ◌-◌, ◌%◌, ◌^◌}

abbrev pub u64 : ℕ → ℕ
u64 n = n % 2 ^ 64

-- Addition of two words, with its wrap-around.
abbrev pub add64 : ℕ → ℕ → ℕ
add64 a b = (a + b) % 2 ^ 64

-- Subtraction of two words, with its wrap-around.
abbrev pub sub64 : ℕ → ℕ → ℕ
sub64 a b = (a + 2 ^ 64 - b % 2 ^ 64) % 2 ^ 64
